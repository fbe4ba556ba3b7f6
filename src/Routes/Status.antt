-- ===== src/Routes/Status.antt =====
-- What the status of a video says of the worker's next step.
use loku.Base.{Bool, true, false, Option, none, some, ◌≡◌, ◌≢◌, ◌↔◌, refl, ap, arith}
use loku.Base.Text.{Text}
use loku.Index.Record.{VideoRecord}
use loku.Media.Compat.{CompatPlan}
use loku.Media.Worker.{work_of, ActiveDerivation}
use loku.Routes.{DerivationState, derivation_state, decided_state, derivation_status, is_active}

-- The work has a compat copy in it.
abbrev makes_copy : Option (Option CompatPlan) → Bool
makes_copy none = false
makes_copy (some none) = false
makes_copy (some (some plan)) = true

plan_of_copy :
    (work : Option (Option CompatPlan))
    → makes_copy work ≡ true
    → (plan : CompatPlan) × (work ≡ some (some plan))
plan_of_copy none h = cc
plan_of_copy (some none) h = cc
plan_of_copy (some (some plan)) h = (plan, refl)

pending_copy :
    (r : VideoRecord) (active : Option ActiveDerivation)
    → r.compat_rel_path ≡ none
    → r.codec_source ≢ none
    → derivation_state r active ≡ DerivationState.pending
    → (r.derivation_error ≡ none) × (makes_copy (work_of r) ≡ true)
unfolding derivation_state decided_state work_of
pending_copy r active bare probed h = ground arith

copy_pending :
    (r : VideoRecord) (active : Option ActiveDerivation)
    → is_active r active ≡ false
    → r.compat_rel_path ≡ none
    → r.codec_source ≢ none
    → r.derivation_error ≡ none
    → makes_copy (work_of r) ≡ true
    → derivation_state r active ≡ DerivationState.pending
unfolding derivation_state decided_state work_of
copy_pending r active idle bare probed clean h = ground arith

-- A video that is probed, has no copy and is not being worked on is pending exactly if it has no
-- recorded failure and the worker has a compat copy to make for it.
pub pending_iff :
    (r : VideoRecord) (active : Option ActiveDerivation)
    → is_active r active ≡ false
    → r.compat_rel_path ≡ none
    → r.codec_source ≢ none
    → (derivation_state r active ≡ DerivationState.pending)
      ↔ ((r.derivation_error ≡ none) × ((plan : CompatPlan) × (work_of r ≡ some (some plan))))
pending_iff r active idle bare probed = (
  λ h.
      let (clean, copy) = pending_copy r active bare probed h in
      (clean, plan_of_copy (work_of r) copy),
  λ h. copy_pending r active idle bare probed h.0 (ap makes_copy h.1.1),
)

-- A status carries an error exactly if its state is failed, and then it is the recorded one.
pub status_error_iff :
    (r : VideoRecord) (active : Option ActiveDerivation) (error : Text)
    → ((derivation_status r active).error ≡ some error) ↔ (
        ((derivation_status r active).state ≡ DerivationState.failed)
        × (r.derivation_error ≡ some error))
unfolding derivation_status derivation_state decided_state
status_error_iff r active error = ground arith
