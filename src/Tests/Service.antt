-- ===== src/Tests/Service.antt =====
-- The API, the settings and the sandbox on concrete data, and the theorems about them.
use nobleport.Prelude.{refl, Option, none, some, [], ◌∷◌}
use nobleport.Python.Text.{Text, codes}
use nobleport.Python.Int.{ℤ, pos}
use nobleport.Python.Json.{end}
use nobleport.Agent.Step.Pure.{default_supervisor_step-Respects}
use nobleport.Agent.Isolation.{within}
use nobleport.Config.{Settings, from_env, settings_of}
use nobleport.Config.Laws.{Sound, from_env-Sound}
use nobleport.Tools.Sandbox.{System, ended, line, run_command}
use nobleport.Tools.Sandbox.Laws.{Gated, run_command-Gated}
use nobleport.Api.{InvokeRequest, post_invoke}
use nobleport.Api.Audited.{Accounted, post_invoke-Accounted}
use nobleport.Tests.Data.{calm_env, tid1, world1, builtins, supervisor1}

abbrev no_variables : Text → Option Text
no_variables name = none

abbrev sixty : Text → Option ℤ
sixty s = some (pos 60)

from_env-Sound_example : Sound sixty no_variables (settings_of no_variables (pos 60))
unfolding from_env
from_env-Sound_example = from_env-Sound sixty no_variables (settings_of no_variables (pos 60)) refl

abbrev default_settings : Settings
default_settings = settings_of no_variables (pos 60)

abbrev shell : System
shell = record {
  split = λ s. some (codes "/usr/bin/pytest" ∷ codes "-q" ∷ []);
  which = λ name. none;
  spawn = λ argv cwd env timeout. ended (codes "ok") [] (some (pos 0));
  started = 0;
  stopped = 1;
  repr = λ s. s;
}

run_command-Gated_example :
    Gated shell default_settings none none none
      (line (codes "/usr/bin/pytest -q"))
      none
      (run_command shell default_settings none none none (line (codes "/usr/bin/pytest -q")) none)
run_command-Gated_example =
    run_command-Gated shell default_settings none none none (line (codes "/usr/bin/pytest -q")) none

abbrev request1 : InvokeRequest
request1 = record { input = codes "hi"; thread_id = some tid1; metadata = end }

post_invoke-Accounted_example :
    Accounted calm_env request1 world1 (post_invoke calm_env supervisor1 request1 world1)
unfolding codes
post_invoke-Accounted_example =
    post_invoke-Accounted calm_env supervisor1 request1 world1 (λ n. refl)
      (default_supervisor_step-Respects (within tid1) builtins)
