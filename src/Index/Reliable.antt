-- ===== src/Index/Reliable.antt =====
-- A connection whose queries do not fail, as `Index::call` of crates/server/src/index/store.rs
-- runs them.
use loku.Base.{ℕ, suc, false, ◌≡◌}
use loku.Base.Text.{Text}
use loku.Index.Database.{Database, Index, ok, call}

-- No query of the connection fails.
abbrev pub IsReliable : Index → Type 0
IsReliable index = (n : ℕ) → index.fails n ≡ false

pub call-ok {ℓ} :
    {A : Type ℓ} (context : Text) (f : Database → A × Database) (index : Index)
    → IsReliable index
    → call context f index
      ≡ (ok (f index.db).0, record index { db = (f index.db).1; calls = suc index.calls })
unfolding call
call-ok context f index reliable = rw (reliable index.calls)
