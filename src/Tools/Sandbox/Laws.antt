-- ===== src/Tools/Sandbox/Laws.antt =====
-- The allowlist of app/tools/sandbox.py is a gate: no subprocess is started behind its back.
use nobleport.Prelude.{
  ◌≡◌, refl, inl, inr, true, false, Option, none, some, List, [], ◌∷◌, arith, Bool-cases,
  Option-cases,
}
use nobleport.Python.Text.{Text, is_nonempty, text_eq, text_eq_iff}
use nobleport.Python.Int.{ℤ}
use nobleport.Python.Text.Strip.{strip}
use nobleport.Config.{Settings, clean}
use nobleport.Tools.Sandbox.{
  SandboxResult, Process, not_started, ended, overdue, System, Command, Ending, unparsable,
  sandbox_rejected, start_failed, returned, exit_code, output, timeout_of, collect, launched,
  basename, contains, allowlist, is_allowed, parse_command, resolve, run_argv, run_command,
}

-- `name` is an entry of the list once the blanks around the entry are gone, and is not empty
pub data Listed (name : Text) : List Text → Type 0 where
  here :
      (a : Text) (names : List Text)
      → strip a ≡ name
      → is_nonempty (strip a) ≡ true
      → Listed name (a ∷ names)
  there : (a : Text) (names : List Text) → Listed name names → Listed name (a ∷ names)

contains-Listed :
    (name : Text) (names : List Text) → contains name (clean names) ≡ true → Listed name names
unfolding contains clean
contains-Listed name [] h = absurd (ground (arith, h))
contains-Listed name (a ∷ names) h = elim (Bool-cases (is_nonempty (strip a))) [
  | inr e ↦ there a names (contains-Listed name names (rw e at h))
  | inl e ↦ elim (Bool-cases (text_eq (strip a) name)) [
    | inl same ↦ here a names ((text_eq_iff (strip a) name).0 same) e
    | inr other ↦ there a names (contains-Listed name names (rw (e, other) at h))
  ]
]

Listed-contains :
    (name : Text) (names : List Text) → Listed name names → contains name (clean names) ≡ true
unfolding contains clean
Listed-contains name [] l = elim l [ ]
Listed-contains name (_ ∷ _) (here a names same e) =
    let found = (text_eq_iff (strip a) name).1 same in rw (e, found) refl
Listed-contains name (_ ∷ _) (there a names rest) =
    let found = Listed-contains name names rest in
    elim (Bool-cases (is_nonempty (strip a))) [
      | inl e ↦ rw e (ground (arith, found))
      | inr e ↦ rw e found
    ]

-- what a result says of the subprocess: its output and its exit code, -1 if it is unknown, and
-- whether it was killed for the time
pub data Describes (argv : List Text) (r : SandboxResult) : Process → Type 0 where
  in_time :
      (out err : Text) (code : Option ℤ)
      → r.command ≡ argv
      → r.stdout ≡ out
      → r.stderr ≡ err
      → r.returncode ≡ exit_code code
      → r.timed_out ≡ false
      → Describes argv r (ended out err code)
  killed :
      (left : Option (Text × Text)) (code : Option ℤ)
      → r.command ≡ argv
      → r.stdout ≡ (output left).0
      → r.stderr ≡ (output left).1
      → r.returncode ≡ exit_code code
      → r.timed_out ≡ true
      → Describes argv r (overdue left code)

module _ (sys : System) (settings : Settings) (cwd : Option Text)
    (env : Option (List (Text × Text))) (timeout : Option ℤ) (command : Command)
    (allowed : Option (List Text)) where
  -- the subprocess that the system would start
  abbrev pub process_of : Text → List Text → Process
  process_of name args = sys.spawn (resolve sys name ∷ args) cwd env (timeout_of settings timeout)

  -- What a call may be: the command does not parse, or its executable is not listed, and nothing is
  -- started; it is listed, but cannot be started; or it is started once, with the arguments as they
  -- were given, and its outcome is returned.
  pub data Gated (out : Ending × List (List Text)) : Type 0 where
    no_command : parse_command sys command ≡ none → out ≡ (unparsable, []) → Gated out
    empty_command :
        parse_command sys command ≡ some []
        → (m : Text) → out ≡ (sandbox_rejected m, [])
        → Gated out
    unlisted :
        (name : Text) (args : List Text) (m : Text)
        → parse_command sys command ≡ some (name ∷ args)
        → (Listed (basename name) (allowlist settings allowed) → ⊥)
        → out ≡ (sandbox_rejected m, [])
        → Gated out
    unstartable :
        (name : Text) (args : List Text)
        → parse_command sys command ≡ some (name ∷ args)
        → Listed (basename name) (allowlist settings allowed)
        → process_of name args ≡ not_started
        → out ≡ (start_failed, [])
        → Gated out
    started :
        (name : Text) (args : List Text) (r : SandboxResult)
        → parse_command sys command ≡ some (name ∷ args)
        → Listed (basename name) (allowlist settings allowed)
        → Describes (resolve sys name ∷ args) r (process_of name args)
        → out ≡ (returned r, (resolve sys name ∷ args) ∷ [])
        → Gated out

  collected-Gated :
      (name : Text) (args : List Text)
      → parse_command sys command ≡ some (name ∷ args)
      → Listed (basename name) (allowlist settings allowed)
      → (process : Process) → process_of name args ≡ process
      → Gated (
        collect sys (resolve sys name ∷ args) process,
        launched (resolve sys name ∷ args) process,
      )
  unfolding collect launched
  collected-Gated name args h l not_started e = unstartable name args h l e refl
  collected-Gated name args h l (ended out err code) e =
      started name args _ h l (rw e (in_time out err code refl refl refl refl refl)) refl
  collected-Gated name args h l (overdue left code) e =
      started name args _ h l (rw e (killed left code refl refl refl refl refl)) refl

  parsed-Gated :
      (argv : List Text)
      → parse_command sys command ≡ some argv
      → Gated (run_argv sys settings cwd env timeout argv allowed)
  unfolding run_argv is_allowed
  parsed-Gated [] h = empty_command h _ refl
  parsed-Gated (name ∷ args) h =
      elim (Bool-cases (contains (basename name) (clean (allowlist settings allowed)))) [
        | inl e ↦ rw e (collected-Gated name args h (contains-Listed _ _ e) _ refl)
        | inr e ↦
            rw e
              (unlisted name args _ h (λ l. absurd (ground (arith, e, Listed-contains _ _ l))) refl)
      ]

  -- A command that does not parse, or whose executable has a basename that is not listed, is
  -- refused and nothing is started. Any other command is handed to the system once, with the
  -- executable that `which` finds (or as named) and the arguments unchanged: if it cannot be
  -- started, the call raises and there is no subprocess; otherwise exactly one is started, and the
  -- result has its argv, its output and its exit code, and says whether it was killed.
  pub run_command-Gated : Gated (run_command sys settings cwd env timeout command allowed)
  unfolding run_command
  run_command-Gated = elim (Option-cases (parse_command sys command)) [
    | inl e ↦ rw (e, run_command) (no_command e refl)
    | inr (argv, e) ↦ rw (e, run_command) (parsed-Gated argv e)
  ]
