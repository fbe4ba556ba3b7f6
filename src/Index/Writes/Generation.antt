-- ===== src/Index/Writes/Generation.antt =====
-- The scan generation: a counter that is kept as text in the table meta.
use loku.Base.{ℕ, ◌+◌, ◌<◌, [], ◌≡◌, ap, ◌∙◌, arith}
use loku.Base.Int.{ℤ, pos, i64_suc, i64_max, to_string}
use loku.Base.Int.RoundTrip.{IsI64, parse_i64-to_string}
use loku.Index.Table.{key_eq_refl, lookup-upsert-replace}
use loku.Index.Database.{Database, meta_key}
use loku.Index.Writes.{set_meta, scan_generation, stored_generation, next_generation_tx}

suc_lem : (n : ℕ) → n < i64_max → i64_suc (pos n) ≡ pos (n + 1)
unfolding i64_suc
suc_lem n fits = ground arith

-- A generation that was stored is read back.
stored-set_meta :
    (z : ℤ) (db : Database)
    → IsI64 z
    → stored_generation (set_meta scan_generation (to_string z) db) ≡ z
unfolding stored_generation set_meta
stored-set_meta z db fits = rw (
  lookup-upsert-replace meta_key (record { library = []; name = scan_generation })
      (record { name = scan_generation; value = to_string z }) db.meta,
  key_eq_refl (record { library = []; name = scan_generation }),
  parse_i64-to_string z fits,
)

-- Below the end of i64 the next generation is one more than the stored one, and it is what the
-- index has stored from then on.
pub next_generation_lem :
    (db : Database) (n : ℕ)
    → stored_generation db ≡ pos n
    → n < i64_max
    → ((next_generation_tx db).0 ≡ pos (n + 1))
      × (stored_generation (next_generation_tx db).1 ≡ pos (n + 1))
unfolding next_generation_tx
next_generation_lem db n stored fits =
    let e = ap i64_suc stored ∙ suc_lem n fits in
    (
      e,
      ap (λ z. stored_generation (set_meta scan_generation (to_string z) db)) e
          ∙ stored-set_meta (pos (n + 1)) db (omega (arith, fits)),
    )
