-- ===== src/Running/Done.antt =====
-- What worker.py and deterministic/run.py leave behind: an outcome that can be read.
use ancalagon.Base.{ℕ, String, FilePath, Result, ok, raise, Exception, ◌≡◌, ◌⊎◌, inl, inr, refl}
use ancalagon.Base.Exec.{Exec}
use ancalagon.Session.Profiles.{Outcome}
use ancalagon.Tools.Workspace.{FileSystem}
use ancalagon.Running.Workers.{
  Attempting, failure_of, recorded, deterministic_outcome, deterministic_main, session_outcome,
  set_up, worker_main,
}

-- A text that is written to the path is there to be read.
abbrev pub IsWritable : {W : Type 0} → FileSystem W → FilePath → Type 0
IsWritable {W} fs path =
    (text : String) (s : W)
    → (s' : W) × (fs.write_text path text s ≡ (ok tt, s')) × (fs.read_text path s' ≡ (ok text, s'))

module _ {W : Type 0} (a : Attempting W) (fs : FileSystem W) (path : FilePath) where
  -- The outcome is there and the code is 0, or the failure of what was raised is and the code is 1.
  abbrev pub Done : Exec W Outcome → W → ℕ → W → Type 0
  Done work s code s' =
      ((outcome : Outcome) × (s₁ : W) × (work s ≡ (ok outcome, s₁))
        × (code ≡ 0)
        × (fs.read_text path s' ≡ (ok (a.outcome_json outcome), s')))
      ⊎ ((e : Exception) × (s₁ : W) × (work s ≡ (raise e, s₁))
          × (code ≡ 1)
          × (fs.read_text path s' ≡ (ok (a.outcome_json (failure_of a fs path e)), s')))

  recorded-Done :
      (work : Exec W Outcome) (s : W)
      → IsWritable fs path
      → (code : ℕ) × (s' : W) × (recorded a fs path work s ≡ (ok code, s')) × Done work s code s'
  unfolding recorded
  recorded-Done work s writable = by (work s) refl
    where
      by :
          (r : Result Outcome × W)
          → work s ≡ r
          → (code : ℕ) × (s' : W) × (recorded a fs path work s ≡ (ok code, s'))
            × Done work s code s'
      by (ok outcome, s₁) e =
          let (s', written, there) = writable (a.outcome_json outcome) s₁ in
          (0, s', rw e (rw written refl), inl (outcome, s₁, e, refl, there))
      by (raise x, s₁) e =
          let (s', written, there) = writable (a.outcome_json (failure_of a fs path x)) s₁ in
          (1, s', rw e (rw written refl), inr (x, s₁, e, refl, there))

-- Where a text that is written to the outcome's path is there to be read: `main` of deterministic/run.py
-- raises nothing, whatever its configuration, its task or its function raise. It leaves the outcome and
-- returns 0, or leaves the failure of what was raised and returns 1. Of worker.py the same holds of
-- the attempt once what comes before its `try` has returned, up to the closing of the transcript.
pub mains-Done :
    {W : Type 0} (a : Attempting W) (fs : FileSystem W) (path config_path task_dir : FilePath)
    (resolve_run : a.Spec → Result (a.Value → Exec W Outcome))
    (open_transcript open_bus : Exec W (Unit {0})) (close_transcript : W → W) (depth : Exec W ℕ)
    (session : a.Config → a.Spec → a.Value → ℕ → Exec W Outcome) (s : W)
    → IsWritable fs path
    → ((code : ℕ) × (s' : W) × (deterministic_main a fs path resolve_run config_path task_dir s
          ≡ (ok code, s'))
        × Done a fs path
            (deterministic_outcome a fs path resolve_run config_path task_dir)
            s
            code
            s')
      × ((config : a.Config) (ready : W)
          → set_up a fs path open_transcript open_bus close_transcript depth session config_path s
            ≡ (ok config, ready)
          → (code : ℕ) × (s' : W) × (worker_main a fs path open_transcript open_bus close_transcript
                depth session config_path task_dir s
              ≡ (ok code, close_transcript s'))
            × Done a fs path
                (session_outcome a fs path open_transcript open_bus close_transcript depth session
                  config task_dir)
                ready
                code
                s')
unfolding deterministic_main worker_main
mains-Done a fs path config_path task_dir resolve_run open_transcript open_bus close_transcript
      depth session s writable =
    (
      recorded-Done a fs path (deterministic_outcome a fs path resolve_run config_path task_dir) s
          writable,
      λ config ready before.
          let work =
            session_outcome a fs path open_transcript open_bus close_transcript depth session config
              task_dir in
          let (code, s', e, done) = recorded-Done a fs path work ready writable in
          (code, s', rw before (rw e refl), done),
    )
