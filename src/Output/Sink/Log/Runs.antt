-- ===== src/Output/Sink/Log/Runs.antt =====
-- The life of the alert log of output/jsonl.go.
use krnl_sentry.Base.{List}
use krnl_sentry.Detect.Alert.{Alert}
