-- ===== src/Tools/Sandbox.antt =====
-- app/tools/sandbox.py: commands run without a shell, if their executable is on the allowlist.
pub mod Laws
use nobleport.Prelude.{
  ℕ, ◌-◌, Bool, true, false, ◌||◌, Option, none, some, List, [], ◌∷◌, ◌++◌, ◌==◌, if◌then◌else◌,
}
use nobleport.Python.Text.{Text, codes, text_eq}
use nobleport.Python.Int.{ℤ, negsuc}
use nobleport.Config.{Settings, clean}

pub record SandboxResult : Type 0 where
  pub command : List Text
  pub returncode : ℤ
  pub stdout : Text
  pub stderr : Text
  pub duration_ms : ℕ
  pub timed_out : Bool

-- How a subprocess goes: it cannot be started, it ends in time, or it is killed. A killed process
-- gives up what it had written, or nothing. `returncode` may still be unknown.
pub data Process : Type 0 where
  not_started : Process
  ended : Text → Text → Option ℤ → Process
  overdue : Option (Text × Text) → Option ℤ → Process

-- What the function asks of the system: the splitter of shlex, with `none` for its ValueError, the
-- path of an executable, subprocesses by their argv, environment, directory and timeout, the clock
-- at the start and at the end, and the representation of a text. Output is given decoded.
pub record System : Type 0 where
  pub split : Text → Option (List Text)
  pub which : Text → Option Text
  pub spawn : List Text → Option Text → Option (List (Text × Text)) → ℤ → Process
  pub started : ℕ
  pub stopped : ℕ
  pub repr : Text → Text

-- `str | Sequence[str]`
pub data Command : Type 0 where
  line : Text → Command
  words : List Text → Command

unfoldable pub has_slash : Text → Bool
has_slash [] = false
has_slash (c ∷ s) = c == b'/' || has_slash s

-- `os.path.basename`: what follows the last slash
unfoldable pub basename : Text → Text
unfolding has_slash
basename [] = []
basename (c ∷ s) =
    let rest = basename s in if has_slash s then rest else if c == b'/' then s else c ∷ s

-- `name in {…}`
unfoldable pub contains : Text → List Text → Bool
contains name [] = false
contains name (a ∷ names) = text_eq a name || contains name names

-- the allowlist in force: the one given, or that of the settings
abbrev pub allowlist : Settings → Option (List Text) → List Text
allowlist settings none = settings.allowed_commands
allowlist settings (some names) = names

unfoldable pub is_allowed : Settings → List Text → Option (List Text) → Bool
unfolding basename contains clean
is_allowed settings [] allowed = false
is_allowed settings (name ∷ args) allowed =
    contains (basename name) (clean (allowlist settings allowed))

unfoldable pub parse_command : System → Command → Option (List Text)
parse_command sys (line s) = sys.split s
parse_command sys (words argv) = some argv

-- how a call ends: the exceptions, or a result
pub data Ending : Type 0 where
  unparsable : Ending
  sandbox_rejected : Text → Ending
  start_failed : Ending
  returned : SandboxResult → Ending

-- `shutil.which(name) or name`
abbrev pub resolve : System → Text → Text
resolve sys name = elim (sys.which name) [
  | none ↦ name
  | some path ↦ elim path [ [] ↦ name | c ∷ s ↦ c ∷ s ]
]

abbrev pub exit_code : Option ℤ → ℤ
exit_code none = negsuc 0
exit_code (some n) = n

abbrev pub output : Option (Text × Text) → Text × Text
output none = ([], [])
output (some out) = out

abbrev pub result : System → List Text → ℤ → Text → Text → Bool → Ending
result sys argv code out err late = returned (record {
  command = argv;
  returncode = code;
  stdout = out;
  stderr = err;
  duration_ms = sys.stopped - sys.started;
  timed_out = late;
})

-- from `create_subprocess_exec` on
unfoldable pub collect : System → List Text → Process → Ending
collect sys argv not_started = start_failed
collect sys argv (ended out err code) = result sys argv (exit_code code) out err false
collect sys argv (overdue left code) =
    result sys argv (exit_code code) (output left).0 (output left).1 true

abbrev pub rejection : System → List Text → Text
rejection sys [] = codes "command not on allowlist: " ++ sys.repr []
rejection sys (name ∷ args) = codes "command not on allowlist: " ++ sys.repr name

abbrev pub timeout_of : Settings → Option ℤ → ℤ
timeout_of settings none = settings.sandbox_timeout_seconds
timeout_of settings (some n) = n

-- the argv of the subprocess that there is, if it could be started
unfoldable pub launched : List Text → Process → List (List Text)
launched argv not_started = []
launched argv (ended out err code) = argv ∷ []
launched argv (overdue left code) = argv ∷ []

-- The ending of the call, and the argv of each subprocess that was started.
module _ (sys : System) (settings : Settings) (cwd : Option Text)
    (env : Option (List (Text × Text))) (timeout : Option ℤ) where
  abbrev pub start : Text → List Text → Ending × List (List Text)
  start name args =
      let argv = resolve sys name ∷ args in
      let process = sys.spawn argv cwd env (timeout_of settings timeout) in
      (collect sys argv process, launched argv process)

  unfoldable pub run_argv : List Text → Option (List Text) → Ending × List (List Text)
  unfolding is_allowed collect launched
  run_argv [] allowed = (sandbox_rejected (rejection sys []), [])
  run_argv (name ∷ args) allowed =
      if is_allowed settings (name ∷ args) allowed
      then start name args
      else (sandbox_rejected (rejection sys (name ∷ args)), [])

  unfoldable pub run_command : Command → Option (List Text) → Ending × List (List Text)
  unfolding run_argv parse_command
  run_command command allowed = elim (parse_command sys command) [
    | none ↦ (unparsable, [])
    | some argv ↦ run_argv argv allowed
  ]
