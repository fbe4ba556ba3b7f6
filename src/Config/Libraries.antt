-- ===== src/Config/Libraries.antt =====
-- Which configurations of libraries are accepted, and what they give.
use loku.Base.{
  Bool, true, false, Option, List, [], ◌∷◌, ◌≡◌, ◌≢◌, ◌↔◌, refl, ap, sym, ◌∙◌, arith, any, map,
}
use loku.Base.Text.{Text, text_eq}
use loku.Base.Paths.{FilePath}
use loku.Library.{Library, LibraryFileEntry, valid_library_name}
use loku.Config.{
  Resolved, resolved, refused, library_candidates, library_of_entry, resolve_entries,
  resolve_candidates, resolve_libraries,
}

-- Every name is valid, is none of those seen before it, and every path exists.
abbrev pub AreAcceptable : (FilePath → Bool) → List Text → List LibraryFileEntry → Type 0
AreAcceptable exists seen [] = Unit
AreAcceptable exists seen (entry ∷ entries) =
    (valid_library_name entry.name ≡ true)
    × (any (text_eq entry.name) seen ≡ false)
    × (exists entry.path ≡ true)
    × AreAcceptable exists (entry.name ∷ seen) entries

entries_resolve :
    (exists : FilePath → Bool) (seen : List Text) (entries : List LibraryFileEntry)
    → AreAcceptable exists seen entries
    → resolve_entries exists seen entries ≡ resolved (map library_of_entry entries)
unfolding resolve_entries
entries_resolve exists seen [] h = refl
entries_resolve exists seen (entry ∷ entries) (valid, fresh, there, h) =
    rw (valid, fresh, there, entries_resolve exists (entry.name ∷ seen) entries h)

abbrev is_resolved : Resolved → Bool
is_resolved (resolved libraries) = true
is_resolved (refused error) = false

resolved_entries :
    (exists : FilePath → Bool) (seen : List Text) (entries : List LibraryFileEntry)
    → is_resolved (resolve_entries exists seen entries) ≡ true
    → AreAcceptable exists seen entries
unfolding resolve_entries
resolved_entries exists seen [] h = tt
resolved_entries exists seen (entry ∷ entries) h =
    ground (arith, resolved_entries exists (entry.name ∷ seen) entries)

resolved-injective : (l k : List Library) → resolved l ≡ resolved k → l ≡ k
resolved-injective l k h = cc

resolve_some_iff :
    (exists : FilePath → Bool) (entries : List LibraryFileEntry) (libraries : List Library)
    → (resolve_candidates exists entries ≡ resolved libraries) ↔ (
        (entries ≢ [])
        × AreAcceptable exists [] entries
        × (libraries ≡ map library_of_entry entries))
resolve_some_iff exists [] libraries = (λ h. cc, λ h. absurd (h.0 refl))
resolve_some_iff exists (entry ∷ entries) libraries = (
  λ h.
      let fine = resolved_entries exists [] (entry ∷ entries) (ap is_resolved h) in
      (
        λ e. cc,
        fine,
        resolved-injective _ _ (sym h ∙ entries_resolve exists [] (entry ∷ entries) fine),
      ),
  λ h.
      let (_, fine, same) = h in
      entries_resolve exists [] (entry ∷ entries) fine ∙ ap resolved (sym same),
)

-- The configuration is accepted exactly if it names a library, and all names are valid and
-- different and all paths exist; then the libraries are the entries, in their order.
pub resolve_libraries_iff :
    (exists : FilePath → Bool) (cli : Option FilePath) (file : Option (List LibraryFileEntry))
    (libraries : List Library)
    → (resolve_libraries exists cli file ≡ resolved libraries) ↔ (
        (library_candidates cli file ≢ [])
        × AreAcceptable exists [] (library_candidates cli file)
        × (libraries ≡ map library_of_entry (library_candidates cli file)))
unfolding resolve_libraries
resolve_libraries_iff exists cli file libraries =
    resolve_some_iff exists (library_candidates cli file) libraries
