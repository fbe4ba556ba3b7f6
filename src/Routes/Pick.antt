-- ===== src/Routes/Pick.antt =====
-- That a pick of a disc set's main title shows in the listings after it.
use loku.Base.{
  suc, true, Option, none, some, List, [], ◌∷◌, ◌≡◌, refl, sym, ap, ◌∙◌, arith, if◌then◌else◌, map,
  keep, map_option, or, inl, inr, Bool-cases, unwrap_or,
}
use loku.Base.Member.{Has}
use loku.Base.Text.{Text, codes, text_eq}
use loku.Index.Table.{key_eq, key_eq_refl, lookup, upsert, replace, lookup-upsert-replace}
use loku.Index.Record.{VideoRecord}
use loku.Index.Database.{Database, Index, OverrideRow, override_key, ok}
use loku.Index.Like.{Like}
use loku.Index.Reads.{reading, browse, find_video, video}
use loku.Index.Reliable.{IsReliable, call-ok}
use loku.Index.Writes.{set_main_title_tx}
use loku.Media.Worker.{ActiveDerivation}
use loku.Library.{Library}
use loku.Routes.{VideoItem}
use loku.Routes.Listing.{
  max_by_size, override_of, main_rel, main_of, titles_of, set_entry, disc_set_entry,
}
use loku.Routes.Handlers.{
  AppState, MainTitle, Response, respond, refuse, library, DiscSetError, set_main_handler,
  pick_main, picked, in_set,
}
use loku.Routes.Shown.{disc_set_entry-some}
use loku.Routes.MainTitle.{main_at}

-- The pick that the table has for a set of a library.
picks_of : Text → List OverrideRow → List (Text × Text)
picks_of library rows =
    map (λ (o : OverrideRow). (o.disc_set, o.main_rel_path))
      (keep (λ (o : OverrideRow). text_eq o.library library) rows)

override_of-picks :
    (library set : Text) (rows : List OverrideRow)
    → override_of set (picks_of library rows)
      ≡ map_option
          (λ (o : OverrideRow). o.main_rel_path)
          (lookup override_key (record { library = library; name = set }) rows)
unfolding picks_of lookup key_eq
override_of-picks library set [] = refl
override_of-picks library set (o ∷ rows) = ground (arith, override_of-picks library set rows)

-- The pick that is stored is the one that a listing of the library is given.
browse_after_pick :
    (like : Like) (name set path dir : Text) (db : Database)
    → override_of set (browse like name dir (set_main_title_tx name set path db).1).overrides
      ≡ some path
unfolding browse set_main_title_tx picks_of
browse_after_pick like name set path dir db =
    override_of-picks name set (
      upsert override_key (replace override_key)
        (record { library = name; disc_set = set; main_rel_path = path }) db.disc_set_overrides)
    ∙ ap (map_option (λ (o : OverrideRow). o.main_rel_path)) (
        lookup-upsert-replace override_key (record { library = name; name = set })
          (record { library = name; disc_set = set; main_rel_path = path }) db.disc_set_overrides
        ∙ ap
            (λ b.
              if b
              then some (record { library = name; disc_set = set; main_rel_path = path })
              else lookup override_key (record { library = name; name = set })
                  db.disc_set_overrides)
            (key_eq_refl (record { library = name; name = set })))

module _ (request : MainTitle) where
  abbrev stored_pick : Index → Database
  stored_pick i = (set_main_title_tx request.library request.disc_set request.path i.db).1

  pick_yes :
      (r : VideoRecord) (i : Index)
      → IsReliable i
      → in_set request.disc_set r ≡ true
      → pick_main request (ok (some r), i)
        ≡ (respond request, record i { db = stored_pick i; calls = suc i.calls })
  pick_yes r i reliable yes_r = rw yes_r (
      ap (picked request) (
        call-ok (codes "recording a main-title pick")
          (set_main_title_tx request.library request.disc_set request.path) i reliable))

  -- A request is answered for a video of the set only, and then its pick is stored.
  pick_answered :
      (found : Option VideoRecord) (i i' : Index) (response : MainTitle)
      → IsReliable i
      → pick_main request (ok found, i) ≡ (respond response, i')
      → (r : VideoRecord) × (found ≡ some r)
        × (in_set request.disc_set r ≡ true)
        × (i'.db ≡ stored_pick i)
  pick_answered none i i' response reliable e = cc
  pick_answered (some r) i i' response reliable e = elim (Bool-cases (in_set request.disc_set r)) [
    | inl yes_r ↦ (r, refl, yes_r, ap (λ x. x.1.db) (sym e ∙ pick_yes r i reliable yes_r))
    | inr no_r ↦
        let refused : pick_main request (ok (some r), i)
            ≡ (refuse (DiscSetError.not_in_set request.path request.disc_set), i) =
          rw no_r refl in
        absurd (ground (arith, sym e ∙ refused))
  ]

  answered :
      (state : AppState) (response : MainTitle) (i i' : Index)
      → IsReliable i
      → set_main_handler state request i ≡ (respond response, i')
      → (r : VideoRecord) × (find_video request.library request.path i.db ≡ some r)
        × (in_set request.disc_set r ≡ true)
        × (i'.db ≡ stored_pick i)
  unfolding set_main_handler
  answered state response i i' reliable h = go (library state request.library) h
    where
      go :
          (l : Option Library)
          → ◌≡◌ {A = Response DiscSetError MainTitle × Index}
              (elim l [
                | none ↦ (refuse (DiscSetError.unknown_library request.library), i)
                | some l' ↦ pick_main request (video request.library request.path i)
              ])
              (respond response, i')
          → (r : VideoRecord) × (find_video request.library request.path i.db ≡ some r)
            × (in_set request.disc_set r ≡ true)
            × (i'.db ≡ stored_pick i)
      go none e = cc
      go (some l) e =
          pick_answered (find_video request.library request.path i.db)
            (record i { calls = suc i.calls }) i' response reliable
            (sym (
                ap (pick_main request) (
                  call-ok (codes "looking up a video")
                    (reading (find_video request.library request.path)) i reliable))
              ∙ e)

-- On a connection whose queries do not fail: where a pick of a main title is answered, the video
-- was in the set, and a listing after it has the picked title in front of the set, if the set then
-- has a video of that path.
pub pick_in_front :
    (state : AppState) (request response : MainTitle) (i i' : Index) (like : Like) (dir : Text)
    (r x : VideoRecord) (rest : List VideoRecord) (active : Option ActiveDerivation)
    → IsReliable i
    → set_main_handler state request i ≡ (respond response, i')
    → Has r (x ∷ rest)
    → r.rel_path ≡ request.path
    → ((v : VideoRecord) × (find_video request.library request.path i.db ≡ some v)
        × (in_set request.disc_set v ≡ true))
      × ((main : VideoItem) × (disc_set_entry request.disc_set
              (x ∷ rest)
              (browse like request.library dir i'.db).overrides
              active
            ≡ some (set_entry request.disc_set (titles_of (x ∷ rest) active) main))
          × (main.path ≡ request.path))
unfolding main_rel
pick_in_front state request response i i' like dir r x rest active reliable h has path_is =
    let (v, found, of_set, stored) = answered request state response i i' reliable h in
    let overrides = (browse like request.library dir i'.db).overrides in
    let pick : override_of request.disc_set overrides ≡ some request.path =
      ap (λ db. override_of request.disc_set (browse like request.library dir db).overrides) stored
      ∙ browse_after_pick like request.library request.disc_set request.path dir i.db in
    let (main, at, e) =
      disc_set_entry-some request.disc_set (x ∷ rest) overrides active (omega arith) in
    let rel_is : main_rel request.disc_set (x ∷ rest) overrides ≡ request.path =
      ap
        (λ o.
          unwrap_or (or o (map_option (λ (s : VideoRecord). s.rel_path) (max_by_size (x ∷ rest))))
            [])
        pick in
    (
      (v, found, of_set),
      (
        main,
        e,
        main_at r (x ∷ rest) active request.path main has path_is
            (ap (λ p. main_of p (titles_of (x ∷ rest) active)) (sym rel_is) ∙ at),
      ),
    )
