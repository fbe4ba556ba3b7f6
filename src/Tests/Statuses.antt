-- ===== src/Tests/Statuses.antt =====
-- The theorems on the status of a video, at a probed DVD title.
use loku.Base.{none, some, ◌≡◌, ◌↔◌, refl}
use loku.Base.Text.{codes}
use loku.Index.Record.{VideoRecord, CodecSource}
use loku.Media.Compat.{CompatPlan}
use loku.Media.Worker.{work_of}
use loku.Routes.{DerivationState, derivation_state}
use loku.Routes.Status.{pending_iff}
use loku.Tests.Fixtures.{scanned}

abbrev probed : VideoRecord
probed = record (scanned (codes "film.mkv")) {
  vcodec = some (codes "mpeg2video");
  codec_source = some CodecSource.ffprobe;
}

abbrev broken : VideoRecord
broken = record probed { derivation_error = some (codes "no space left") }

pending_iff_example : (derivation_state probed none ≡ DerivationState.pending) ↔ (
    (probed.derivation_error ≡ none) × ((plan : CompatPlan) × (work_of probed ≡ some (some plan))))
pending_iff_example = pending_iff probed none refl refl (λ e. cc)
