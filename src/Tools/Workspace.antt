-- ===== src/Tools/Workspace.antt =====
-- workspace/workspace.py: the paths that tools may read and write.
use ancalagon.Base.{
  raise-ok, ℕ, String, FilePath, is_relative_to, Bool, true, ◌≡◌, refl, subst, sym, ◌∙◌, if-true,
  any, List, [], ◌∷◌, ◌++◌, map, Result, ok, raise, scope_error, if◌then◌else◌, Bool-cases, inl,
  inr, arith, ok-injective,
}
use ancalagon.Base.Exec.{Exec, pure, lift, ◌>>◌}
use ancalagon.Base.Exec

-- The file system that a workspace was given.
pub record FileSystem (W : Type 0) : Type 0 where
  pub expanduser : FilePath → FilePath
  pub resolve : FilePath → FilePath
  pub parent : FilePath → FilePath
  pub read_text : FilePath → Exec W String
  pub iterdir : FilePath → Exec W (List FilePath)
  pub changed_at : FilePath → Exec W ℕ
  pub exists : FilePath → Exec W Bool
  pub is_file : FilePath → Exec W Bool
  pub is_dir : FilePath → Exec W Bool
  pub append : FilePath → String → Exec W (Unit {0})
  pub write_text : FilePath → String → Exec W (Unit {0})
  pub mkdir : FilePath → Bool → Bool → Exec W (Unit {0})
  pub unlink : FilePath → Exec W (Unit {0})

pub record Workspace (W : Type 0) : Type 0 where
  pub fs : FileSystem W
  pub write_roots : List FilePath
  pub read_roots : List FilePath

-- The roots of a configuration, and its home.
pub record Roots : Type 0 where
  pub write_roots : List FilePath
  pub read_roots : List FilePath
  pub home : FilePath

unfoldable pub is_under : FilePath → List FilePath → Bool
is_under path roots = any (λ root. is_relative_to path root) roots

module _ {W : Type 0} where
  abbrev pub real_path : FileSystem W → FilePath → FilePath
  real_path fs path = fs.resolve (fs.expanduser path)

  -- `Workspace.__init__`.
  unfoldable pub workspace_on : FileSystem W → List FilePath → List FilePath → Workspace W
  workspace_on fs write_roots read_roots = record {
    fs = fs;
    write_roots = map (real_path fs) write_roots;
    read_roots = map (real_path fs) read_roots;
  }

  -- `Workspace.from_config`.
  unfoldable pub from_config : Roots → FileSystem W → Workspace W
  unfolding workspace_on
  from_config c fs =
      workspace_on fs (c.write_roots ++ c.home ∷ [])
        (c.read_roots ++ (c.write_roots ++ c.home ∷ []))

  module _ (ws : Workspace W) where
    unfoldable pub resolve_write : FilePath → Result FilePath
    unfolding is_under
    resolve_write path =
        if is_under (real_path ws.fs path) ws.write_roots
        then ok (real_path ws.fs path)
        else raise scope_error

    unfoldable pub resolve_read : FilePath → Result FilePath
    unfolding is_under
    resolve_read path =
        if is_under (real_path ws.fs path) ws.read_roots
        then ok (real_path ws.fs path)
        else raise scope_error

    -- An operation of the file system on a path that is in scope.
    unfoldable pub reading : {A : Type 0} → (FilePath → Exec W A) → FilePath → Exec W A
    unfolding resolve_read
    reading op path = Exec.◌>>=◌ (lift (resolve_read path)) op

    unfoldable pub writing : {A : Type 0} → (FilePath → Exec W A) → FilePath → Exec W A
    unfolding resolve_write
    writing op path = Exec.◌>>=◌ (lift (resolve_write path)) op

    unfoldable pub read_text : FilePath → Exec W String
    unfolding reading
    read_text = reading ws.fs.read_text

    unfoldable pub iterdir : FilePath → Exec W (List FilePath)
    unfolding reading
    iterdir = reading ws.fs.iterdir

    unfoldable pub changed_at : FilePath → Exec W ℕ
    unfolding reading
    changed_at = reading ws.fs.changed_at

    unfoldable pub exists : FilePath → Exec W Bool
    unfolding reading
    exists = reading ws.fs.exists

    unfoldable pub is_file : FilePath → Exec W Bool
    unfolding reading
    is_file = reading ws.fs.is_file

    unfoldable pub is_dir : FilePath → Exec W Bool
    unfolding reading
    is_dir = reading ws.fs.is_dir

    unfoldable pub write_text : FilePath → String → Exec W (Unit {0})
    unfolding writing
    write_text path content = writing (λ p. ws.fs.write_text p content) path

    unfoldable pub mkdir : FilePath → Bool → Bool → Exec W (Unit {0})
    unfolding writing
    mkdir path parents exist_ok = writing (λ p. ws.fs.mkdir p parents exist_ok) path

    unfoldable pub unlink : FilePath → Exec W (Unit {0})
    unfolding writing
    unlink = writing ws.fs.unlink

    -- The handle is opened, written and closed.
    unfoldable pub append_line : FilePath → String → Exec W (Unit {0})
    unfolding mkdir writing
    append_line path line =
        writing (λ p. mkdir (ws.fs.parent p) true true >> ws.fs.append p line) path

any-append :
    {A : Type 0} (test : A → Bool) (xs ys : List A)
    → any test ys ≡ true
    → any test (xs ++ ys) ≡ true
any-append test [] ys h = h
any-append test (x ∷ xs) ys h = rw (any-append test xs ys h) (ground arith)

map-append : {A B : Type 0} (f : A → B) (xs ys : List A) → map f (xs ++ ys) ≡ map f xs ++ map f ys
map-append f [] ys = refl
map-append f (x ∷ xs) ys = rw (map-append f xs ys) refl

-- In the workspace of a configuration a path that may be written may also be read, as the same path,
-- and it is under one of the directories that may be written.
pub resolve_write-resolve_read :
    {W : Type 0} (c : Roots) (fs : FileSystem W) (path resolved : FilePath)
    → resolve_write (from_config c fs) path ≡ ok resolved
    → (resolve_read (from_config c fs) path ≡ ok resolved)
      × (any (λ root. is_relative_to resolved root) (from_config c fs).write_roots ≡ true)
unfolding resolve_write resolve_read from_config workspace_on is_under
resolve_write-resolve_read c fs path resolved h =
    elim (Bool-cases (any (λ root. is_relative_to (real_path fs path) root) roots)) [
      | inl under ↦ (
        if-true _ _ (readable under) ∙ (rw under at h),
        rw (sym (ok-injective (rw under at h))) under,
      )
      | inr outside ↦ raise-ok (rw outside at h)
    ]
  where
    roots : List FilePath
    roots = map (real_path fs) (c.write_roots ++ c.home ∷ [])

    readable :
        any (λ root. is_relative_to (real_path fs path) root) roots ≡ true
        → any (λ root. is_relative_to (real_path fs path) root) (from_config c fs).read_roots ≡ true
    readable under =
        subst (λ l. any (λ root. is_relative_to (real_path fs path) root) l ≡ true)
          (sym (map-append (real_path fs) c.read_roots (c.write_roots ++ c.home ∷ [])))
          (any-append (λ root. is_relative_to (real_path fs path) root)
            (map (real_path fs) c.read_roots) roots under)
