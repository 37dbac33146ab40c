-- ===== src/Objection/Tests.antt =====
-- Messages that the pre-filter of app/agent/tools/objection_detection.py classifies.
use leadpulse.Prelude.{◌≡◌, refl}
use leadpulse.Prelude.Text.{text, contains, strip, lower}
use leadpulse.Objection.{classify_message, classify_lower, any_in, safe}

-- An objection with "no" in it.
not_interested : classify_message (text "Not interested, thanks") ≡ safe
unfolding classify_message classify_lower any_in contains strip lower
not_interested = refl
