-- ===== src/Index/Database.antt =====
-- The tables of crates/server/src/index/schema.rs, and the connection that runs the queries of
-- crates/server/src/index/store.rs.
use loku.Base.{ℕ, suc, Bool, List, [], if◌then◌else◌}
use loku.Base.Text.{Text}
use loku.Index.Table.{Key}
use loku.Index.Record.{Row, ProbeResult}

pub record ProbeRow : Type 0 where
  pub library : Text
  pub rel_path : Text
  pub size : ℕ
  pub mtime : ℕ
  pub probe : ProbeResult

pub record OverrideRow : Type 0 where
  pub library : Text
  pub disc_set : Text
  pub main_rel_path : Text

pub record FailureRow : Type 0 where
  pub library : Text
  pub rel_path : Text
  pub size : ℕ
  pub mtime : ℕ
  pub error : Text
  pub failed_at : ℕ

pub record MetaRow : Type 0 where
  pub name : Text
  pub value : Text

abbrev pub probe_key : ProbeRow → Key
probe_key r = record { library = r.library; name = r.rel_path }

abbrev pub override_key : OverrideRow → Key
override_key r = record { library = r.library; name = r.disc_set }

abbrev pub failure_key : FailureRow → Key
failure_key r = record { library = r.library; name = r.rel_path }

abbrev pub meta_key : MetaRow → Key
meta_key r = record { library = []; name = r.name }

pub record Database : Type 0 where
  pub videos : List Row
  pub probe_cache : List ProbeRow
  pub disc_set_overrides : List OverrideRow
  pub derivation_failures : List FailureRow
  pub meta : List MetaRow

-- The tables that CREATE_SQL makes.
abbrev pub empty : Database
empty = record {
  videos = [];
  probe_cache = [];
  disc_set_overrides = [];
  derivation_failures = [];
  meta = [];
}

-- The errors of a query that runs, with the context that names it.
pub data IndexError : Type 0 where
  index_query : Text → IndexError

pub data Result {ℓ} (A : Type ℓ) : Type ℓ where
  ok : A → Result A
  err : IndexError → Result A

-- The connection: its tables, how many closures it has run, and which of them SQLite fails.
pub record Index : Type 0 where
  pub db : Database
  pub calls : ℕ
  pub fails : ℕ → Bool

-- `Index::call`: a closure whose query fails is rolled back, and its error names the context.
unfoldable pub call {ℓ} : {A : Type ℓ} → Text → (Database → A × Database) → Index → Result A × Index
call context f index =
    let next = record index { calls = suc index.calls } in
    if index.fails index.calls
    then (err (index_query context), next)
    else (let (a, db') = f index.db in (ok a, record next { db = db' }))
