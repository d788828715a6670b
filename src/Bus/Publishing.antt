-- ===== src/Bus/Publishing.antt =====
-- `_publish` of bus/lifecycle_store.py: for an agent of the table it has a directory to name.
use ancalagon.Base.{
  ℕ, ◌≡◌, true, ◌==◌, List, ◌∷◌, [], ◌++◌, map, find, some, elem, ok, FilePath, String, take_text,
  name_of,
}
use ancalagon.Base.Keys.{elem-find, All-found}
use ancalagon.Contracts.Status.{AgentStatus, EventSource, LifecycleLine, HarnessTask}
use ancalagon.Bus.Rows.{Tables}
use ancalagon.Bus.Log.{Store, dir_of, publish}
use ancalagon.Bus.WellFormed.{IsSound}

pub dir_of_agent :
    (a : ℕ) (t : Tables)
    → IsSound t
    → elem a (map (λ r. r.id) t.agents) ≡ true
    → (dir : FilePath) × (dir_of a t ≡ ok dir)
unfolding dir_of
dir_of_agent a t w m =
    let (row, e) = elem-find (λ r. r.id) a t.agents m in
    let (k, placed) =
      All-found (λ r. (k : HarnessTask) × (find (λ k. k.id == r.task) t.tasks ≡ some k))
        (λ r. r.id == a) t.agents w.placed e in
    (k.dir, rw e (rw placed))

pub publish-ok :
    (a : ℕ) (status : AgentStatus) (source : EventSource) (pid : ℕ) (summary : String) (s : Store)
    → IsSound s.tables
    → elem a (map (λ r. r.id) s.tables.agents) ≡ true
    → (out : List (LifecycleLine × String)) × (publish a status source pid summary s
        ≡ (ok tt, record s { published = out }))
unfolding publish
publish-ok a status source pid summary s w m =
    let (dir, e) = dir_of_agent a s.tables w m in
    (
      s.published
          ++ (
            record {
              agent = a;
              status = status;
              source = source;
              pid = pid;
              summary = take_text 1000 summary;
            },
            name_of dir,
          )
            ∷ [],
      rw e,
    )
