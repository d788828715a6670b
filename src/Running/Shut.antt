-- ===== src/Running/Shut.antt =====
-- However `run` of run.py ends, its supervisor is left watching nothing.
use ancalagon.Base.{
  FilePath, Bool, List, [], ◌∷◌, ◌++◌, some, none, Result, raise, if◌then◌else◌, ◌≡◌, refl, require,
  key_error, no_outcome, true, false,
}
use ancalagon.Base.Exec.{Exec, pure, lift, ◌>>=◌, Leaves, Leaves-bind}
use ancalagon.Bus.Log.{task_at}
use ancalagon.Bus.Snapshots.{snapshot}
use ancalagon.Bus.Queue.{enqueue}
use ancalagon.Schedule.Queries.{newest_agent}
use ancalagon.Supervisor.State.{World, on_bus}
use ancalagon.Supervisor.Stale.{shutdown}
use ancalagon.Tools.Workspace.{FileSystem}
use ancalagon.Running.Root.{Values, root_spec, role_named}
use ancalagon.Running.Run.{
  RunState, in_files, in_supervisor, RunConfig, Outside, outcome_of, supervised, queued_root, run,
}

abbrev pub WatchesNone : (W : Type 0) → RunState W → Type 0
WatchesNone W s = (s.supervisor.live ≡ []) × (s.supervisor.started ≡ [])

module _ {W : Type 0} where
  -- A part that works on files, and what follows it.
  files-then :
      {A B : Type 0} (op : Exec W A) (f : A → Exec (RunState W) B)
      → ((a : A) → Leaves (WatchesNone W) (f a))
      → Leaves (WatchesNone W) (in_files op >>= f)
  files-then op f h = Leaves-bind (WatchesNone W) (in_files op) f (record { at = λ s i. i }) h

  -- A part that only reads, and what follows it.
  reads-then :
      {A B : Type 0} (read : RunState W → Result A) (f : A → Exec (RunState W) B)
      → ((a : A) → Leaves (WatchesNone W) (f a))
      → Leaves (WatchesNone W) ((λ s. lift (read s) s) >>= f)
  reads-then read f h =
      Leaves-bind (WatchesNone W) (λ s. lift (read s) s) f (record { at = λ s i. i }) h

  module _ (v : Values) (fs : FileSystem W) (c : RunConfig v) (o : Outside v W) where
    queued_root-Leaves :
        (w : World) (run_dir : FilePath) → Leaves (WatchesNone W) (queued_root v fs c o w run_dir)
    unfolding queued_root
    queued_root-Leaves w run_dir =
        let task_dir = run_dir ++ "tasks" ∷ "root" ∷ [] in
        files-then o.on_path _ (λ _. files-then o.check_contracts _ (λ _.
          files-then (fs.mkdir run_dir true true) _ (λ _.
            files-then (fs.write_text (run_dir ++ "config.json" ∷ []) c.config_json) _ (λ _.
              files-then (fs.mkdir task_dir true true) _ (λ _.
                files-then (root_spec v fs c.settings c.roles) _ (λ spec.
                  files-then (fs.write_text (task_dir ++ "spec.json" ∷ []) (c.spec_json spec)) _
                    (λ _.
                      Leaves-bind (WatchesNone W)
                        (in_supervisor (on_bus (enqueue c.supervising.db w.now task_dir 0))) _
                        (record { at = λ s i. i }) (λ agent. record { at = λ s i. i }))))))))

    supervised-Leaves :
        (w : World) (worlds : List World) → Leaves (WatchesNone W) (supervised v fs c o w worlds)
    unfolding supervised shutdown
    supervised-Leaves w worlds = record { at = λ s i. (refl, refl) }

    outcome_of-Leaves :
        (task_dir : FilePath) → Leaves (WatchesNone W) (outcome_of v fs c o task_dir)
    unfolding outcome_of
    outcome_of-Leaves task_dir =
        reads-then (λ s. task_at task_dir s.supervisor.bus.tables) _
          (λ task.
            reads-then (λ s. snapshot s.supervisor.bus) _
              (λ snap.
                reads-then (λ _. newest_agent snap task.id) _
                  (λ newest.
                    files-then (fs.exists (task_dir ++ c.outcome_name newest ∷ [])) _ (λ written.
                      Leaves-bind (WatchesNone W)
                        (if written then pure tt else lift (raise no_outcome)) _ (found written)
                        (λ _.
                          reads-then (λ _. require key_error (role_named c.settings.role c.roles)) _
                            (λ role.
                              reads-then (λ _. o.answer_class role) _
                                (λ answer.
                                  files-then (fs.read_text (task_dir ++ c.outcome_name newest ∷ []))
                                    _ (λ content. record { at = λ s i. i }))))))))
      where
        found :
            (written : Bool)
            → Leaves (WatchesNone W) (if written then pure tt else lift (raise no_outcome))
        found true = record { at = λ s i. i }
        found false = record { at = λ s i. i }

-- From a supervisor that watches nothing, however `run` ends, with an outcome, with an exception of any
-- of its parts, or without having idled, its supervisor watches no process and remembers no start.
pub run-WatchesNone :
    {W : Type 0} (v : Values) (fs : FileSystem W) (c : RunConfig v) (o : Outside v W) (w : World)
    (worlds : List World) (run_dir : FilePath) (s : RunState W)
    → WatchesNone W s
    → WatchesNone W ((run v fs c o w worlds run_dir s).1)
unfolding run
run-WatchesNone {W} v fs c o w worlds run_dir s none_before =
    (Leaves-bind (WatchesNone W) (queued_root v fs c o w run_dir) _
        (queued_root-Leaves v fs c o w run_dir)
        (λ _.
          Leaves-bind (WatchesNone W) (supervised v fs c o w worlds) _
            (supervised-Leaves v fs c o w worlds) by)).at
      s none_before
  where
    outcome : Exec (RunState W) o.OutcomeValue
    outcome = outcome_of v fs c o (run_dir ++ "tasks" ∷ "root" ∷ [])

    by :
        (idle : Bool)
        → Leaves (WatchesNone W) (if idle then (outcome >>= λ x. pure (some x)) else pure none)
    by true =
        Leaves-bind (WatchesNone W) outcome (λ x. pure (some x))
          (outcome_of-Leaves v fs c o (run_dir ++ "tasks" ∷ "root" ∷ []))
          (λ x. record { at = λ s i. i })
    by false = record { at = λ s i. i }
