-- ===== src/Tools/Refusing.antt =====
-- What the file tools do with a path that is out of scope.
use ancalagon.Base.{
  ℕ, ℤ, String, FilePath, if-true, if-false, Result, raise, raise-ok, scope_error, ◌≡◌, refl, sym,
  ◌∙◌, ap, Bool-cases, inl, inr,
}
use ancalagon.Session.Tools.{ToolResult}
use ancalagon.Tools.Workspace.{
  FileSystem, Roots, is_under, real_path, from_config, resolve_read, resolve_write, append_line,
  writing, resolve_write-resolve_read,
}
use ancalagon.Tools.Context.{Formats, ToolContext, Counted, failure}
use ancalagon.Tools.Files.{
  Texts, if_in_scope, appended, read_file_run, write_file_run, append_file_run, delete_file_run,
  list_dir_run, edit_file_run,
}

module _ {W : Type 0} (c : Roots) (fs : FileSystem W) where
  resolve_write-cases :
      (path : FilePath)
      → resolve_read (from_config c fs) path ≡ raise scope_error
      → resolve_write (from_config c fs) path ≡ raise scope_error
  unfolding resolve_write from_config
  resolve_write-cases path h =
      elim (Bool-cases (is_under (real_path fs path) (from_config c fs).write_roots)) [
        | inl under ↦ raise-ok (
            sym h
            ∙ (resolve_write-resolve_read c fs path (real_path fs path) (if-true _ _ under)).0)
        | inr outside ↦ if-false _ _ outside
      ]

-- A tool's answer is its failure for this path, and what the failure writes is all that it does.
abbrev pub Refuses :
    {W : Type 0}
    → Formats
    → Texts
    → ToolContext W
    → String
    → FilePath
    → (Counted W → Result ToolResult × Counted W)
    → Type 0
Refuses {W} f t ctx tool_name asked run =
    (s : Counted W) → run s ≡ failure f ctx tool_name (t.out_of_scope asked) s

-- In the workspace of a configuration, a path that may not be read is refused by every tool on files:
-- whatever else it is asked, the tool fails with the scope error, and does nothing but write the error
-- to its output.
pub resolve_read-Refuses :
    {W : Type 0} (f : Formats) (t : Texts) (c : Roots) (fs : FileSystem W) (ctx : ToolContext W)
    (asked : FilePath)
    → ctx.workspace ≡ from_config c fs
    → resolve_read (from_config c fs) asked ≡ raise scope_error
    → ((offset limit : ℤ) (ts : ℕ)
        → Refuses f t ctx "read_file" asked (read_file_run f t ctx asked offset limit ts))
      × Refuses f t ctx "list_dir" asked (list_dir_run f t ctx asked)
      × ((content : String)
          → Refuses f t ctx "write_file" asked (write_file_run f t ctx asked content))
      × ((content : String)
          → Refuses f t ctx "append_file" asked (append_file_run f t ctx asked content))
      × Refuses f t ctx "delete_file" asked (delete_file_run f t ctx asked)
      × ((old new : String)
          → Refuses f t ctx "edit_file" asked (edit_file_run f t ctx asked old new))
unfolding read_file_run list_dir_run write_file_run append_file_run delete_file_run edit_file_run
    if_in_scope append_line writing appended
resolve_read-Refuses f t c fs ctx asked configured unreadable =
    let no_read : resolve_read ctx.workspace asked ≡ raise scope_error =
      ap (λ ws. resolve_read ws asked) configured ∙ unreadable in
    let no_write : resolve_write ctx.workspace asked ≡ raise scope_error =
      ap (λ ws. resolve_write ws asked) configured ∙ resolve_write-cases c fs asked unreadable in
    (
      λ offset limit ts s. rw no_read refl,
      λ s. rw no_read refl,
      λ content s. rw no_write refl,
      λ content s. rw no_write refl,
      λ s. rw no_write refl,
      λ old new s. rw no_write refl,
    )
