-- ===== src/Routes.antt =====
-- crates/server/src/routes/types.rs: what the API says of a video and of the work on it.
pub mod Status
pub mod Listing
pub mod Handlers
pub mod Search
pub mod Groups
pub mod Shown
pub mod MainTitle
pub mod Pick
pub mod Inside
pub mod Slash
pub mod Found
use loku.Base.{
  ℕ, Bool, true, false, not, ◌&&◌, Option, none, some, List, if◌then◌else◌, is_some, is_none,
  is_some_and,
}
use loku.Base.Text.{Text, text_eq}
use loku.Base.Int.{ℤ}
use loku.Index.Record.{VideoRecord, TitleSource, F64}
use loku.Media.Compat.{CompatInputs, DerivationDecision, decide}
use loku.Media.Codecs.{native_source_type}
use loku.Media.Worker.{ActiveDerivation}

pub data DerivationState : Type 0 where
  not_needed pending processing done failed unknown : DerivationState

pub record DerivationStatus : Type 0 where
  pub state : DerivationState
  pub error : Option Text

-- The inputs of the decision for a record without a compat copy.
abbrev pub status_inputs : VideoRecord → CompatInputs
status_inputs r = record {
  container = r.container;
  vcodec = r.vcodec;
  vprofile = r.vprofile;
  acodec = r.acodec;
  field_order = r.field_order;
  has_compat = false;
}

-- The worker is at this video.
abbrev pub is_active : VideoRecord → Option ActiveDerivation → Bool
is_active r active =
    is_some_and active λ a. text_eq a.library r.library && text_eq a.rel_path r.rel_path

-- The state of a video that is probed, has no copy and is not being worked on.
unfoldable pub decided_state : VideoRecord → DerivationState
decided_state r = elim (decide (status_inputs r)) [
  | DerivationDecision.not_needed ↦ DerivationState.not_needed
  | DerivationDecision.unplannable ↦ DerivationState.unknown
  | DerivationDecision.produce plan ↦
      if is_some r.derivation_error then DerivationState.failed else DerivationState.pending
]

unfoldable pub derivation_state : VideoRecord → Option ActiveDerivation → DerivationState
derivation_state r active =
    let decided = decided_state r in
    if is_active r active
    then DerivationState.processing
    else if is_some r.compat_rel_path
    then DerivationState.done
    else if is_none r.codec_source
    then DerivationState.pending
    else decided

abbrev pub error_in : DerivationState → Option Text → Option Text
error_in DerivationState.failed error = error
error_in state error = none

unfoldable pub derivation_status : VideoRecord → Option ActiveDerivation → DerivationStatus
derivation_status r active =
    let state = derivation_state r active in
    record { state = state; error = error_in state r.derivation_error }

pub record VideoItem : Type 0 where
  pub library : Text
  pub path : Text
  pub name : Text
  pub title : Option Text
  pub title_source : Option TitleSource
  pub duration_secs : Option F64
  pub upload_date : Option Text
  pub year : Option ℤ
  pub description : Option Text
  pub channel : Option Text
  pub channel_url : Option Text
  pub webpage_url : Option Text
  pub view_count : Option ℕ
  pub genres : List Text
  pub thumb_path : Option Text
  pub compat_path : Option Text
  pub native_type : Option Text
  pub derivation : DerivationStatus
  pub disc_set : Option Text
  pub disc_title_index : Option ℕ

unfoldable pub from_record : VideoRecord → Option ActiveDerivation → VideoItem
from_record r active = record {
  library = r.library;
  path = r.rel_path;
  name = r.file_name;
  title = r.title;
  title_source = r.title_source;
  duration_secs = r.duration_secs;
  upload_date = r.upload_date;
  year = r.year;
  description = r.description;
  channel = r.channel;
  channel_url = r.channel_url;
  webpage_url = r.webpage_url;
  view_count = r.view_count;
  genres = r.genres;
  thumb_path = r.thumb_rel_path;
  compat_path = r.compat_rel_path;
  native_type = native_source_type r.container r.vcodec r.acodec;
  derivation = derivation_status r active;
  disc_set = r.disc_set;
  disc_title_index = r.disc_title_index;
}
