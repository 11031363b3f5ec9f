-- ===== src/Detect/Storyline/Reports.antt =====
-- When an alert completes an attack chain.
use krnl_sentry.Base.{ℕ, ◌<◌, true, false, ◌≡◌, ◌↔◌, arith, length, pos, ltb_ℤ, is_set}
use krnl_sentry.Detect.Alert.{Alert}
use krnl_sentry.Detect.Storyline.Tactics.{tactics_for}
use krnl_sentry.Detect.Storyline.Story.{Storyline}
use krnl_sentry.Detect.Storyline.Story.Tactical.{add_tactics-length}
use krnl_sentry.Detect.Storyline.Lineage.{Correlator}
use krnl_sentry.Detect.Storyline.{file_alert, report}

-- A chain is raised on an alert exactly if it adds a tactic to the story, the story then has at
-- least the configured number of tactics, and more than when it was last reported.
pub report_iff :
    (p now : ℕ) (a : Alert) (s : Storyline) (c : Correlator)
    → let filed = (file_alert now a s).0 in
      (is_set (report p (file_alert now a s) a c).1 ≡ true) ↔ (
        (length s.tactics < length filed.tactics)
        × (ltb_ℤ (pos (length filed.tactics)) c.cfg.threshold ≡ false)
        × (s.reported_n < length filed.tactics))
unfolding report file_alert
report_iff p now a s c =
    let grows = add_tactics-length s.tactics (tactics_for a) in
    (λ h. ground (arith, grows), λ h. ground (arith, grows))
