-- ===== src/Config/Defaults.antt =====
-- config/pipeline.go: the defaults of a pipeline's settings.
use text.Mathlib.TextEquality.{eq_iff}
use neptunus.Base.{◌≡◌, ◌≢◌, String, arith, string_comparable}
use neptunus.Base.Int.{pos, ◌≤ℤ◌}
use neptunus.Config.{PipeSettings, set_pipeline_defaults}

-- Settings that the pipeline may be run with.
pub record IsRunnable (s : PipeSettings) : Type 0 where
  pub lines_pos : pos 1 ≤ℤ s.lines
  pub buffer_nonneg : pos 0 ≤ℤ s.buffer
  pub consistency_set : s.consistency ≢ ""

soft-ne-empty : ◌≢◌ {A = String} "soft" ""
soft-ne-empty = ground (arith, eq_iff "soft" "")

-- The defaults make any settings runnable, change nothing of settings that are runnable, and leave
-- the id, the run flag and the log level alone.
set_pipeline_defaults_lem :
    (s : PipeSettings)
    → IsRunnable (set_pipeline_defaults s)
      × (IsRunnable s → set_pipeline_defaults s ≡ s)
      × ((set_pipeline_defaults s).id ≡ s.id)
      × ((set_pipeline_defaults s).run ≡ s.run)
      × ((set_pipeline_defaults s).log_level ≡ s.log_level)
unfolding set_pipeline_defaults
set_pipeline_defaults_lem s = (
  record {
    lines_pos = ground arith;
    buffer_nonneg = ground arith;
    consistency_set = ground (arith, eq_iff s.consistency "", soft-ne-empty);
  },
  λ r. ground (arith, eq_iff s.consistency "", r.consistency_set),
  ground arith,
  ground arith,
  ground arith,
)
