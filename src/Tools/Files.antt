-- ===== src/Tools/Files.antt =====
-- The tools of tools/files/: what each checks, does and answers.
use ancalagon.Base.{
  ℕ, ◌-◌, ◌+◌, ℤ, pos, negsuc, ◌+ℤ◌, leb_ℤ, String, joined, text_length, FilePath, name_of, true,
  if◌then◌else◌, List, map, length, take, drop, Option, none, some, Result, ok, raise, scope_error,
}
use ancalagon.Base.Exec.{Exec, lift, ◌>>=◌, ◌>>◌}
use ancalagon.Session.Tools.{ToolResult}
use ancalagon.Tools.Workspace.{
  resolve_read, resolve_write, read_text, write_text, append_line, is_file, is_dir, iterdir, mkdir,
  unlink,
}
use ancalagon.Tools.Paging.{join_lines}
use ancalagon.Tools.Context.{
  Formats, ToolContext, Counted, in_world, record_access, result, paged, failure,
}

-- Python's `splitlines`, its sort of names and its replacement of the first occurrence; and the texts of
-- a path, of a path that is missing, of a scope error and of a text as `repr` has it.
pub record Texts : Type 0 where
  pub split_lines : String → List String
  pub sort_names : List String → List String
  pub replace_first : (old new text : String) → Option String
  pub missing_hint : FilePath → String
  pub out_of_scope : FilePath → String
  pub quoted : String → String

-- Where an index of a slice stands in a list of that length: a negative one counts from the end.
unfoldable pub place : ℕ → ℤ → ℕ
place count (pos n) = n
place count (negsuc n) = count - (n + 1)

-- `lines[start:stop]`.
unfoldable pub slice : List String → ℤ → ℤ → List String
unfolding place
slice lines start stop =
    let from = place (length lines) start in
    take (place (length lines) stop - from) (drop from lines)

-- `end` of ReadFile.run.
unfoldable pub end_of : ℕ → ℤ → ℤ → ℤ
unfolding ◌+ℤ◌
end_of count offset limit =
    if leb_ℤ limit (pos 0)
    then pos count
    else if leb_ℤ (pos count) (offset +ℤ limit)
    then pos count
    else offset +ℤ limit

module _ {W : Type 0} (f : Formats) (t : Texts) (ctx : ToolContext W) where
  -- `except ScopeError as exc: return ctx.failure(...)`.
  unfoldable pub if_in_scope :
      String
      → FilePath
      → Result FilePath
      → (FilePath → Exec (Counted W) ToolResult)
      → Exec (Counted W) ToolResult
  unfolding failure
  if_in_scope tool_name asked (ok path) then' = then' path
  if_in_scope tool_name asked (raise scope_error) then' =
      failure f ctx tool_name (t.out_of_scope asked)
  if_in_scope tool_name asked (raise e) then' = lift (raise e)

  read_lines : FilePath → ℤ → ℤ → ℕ → Exec (Counted W) ToolResult
  unfolding record_access read_text paged slice end_of
  read_lines path offset limit ts = do
    record_access f ctx path ts
    content ← in_world (read_text ctx.workspace path)
    (let lines = t.split_lines content in
        let end = end_of (length lines) offset limit in
        paged f ctx "read_file" (slice lines offset end) offset (length lines))

  -- `ReadFile.run`.
  unfoldable pub read_file_run : FilePath → ℤ → ℤ → ℕ → Exec (Counted W) ToolResult
  unfolding if_in_scope resolve_read is_file failure read_lines
  read_file_run asked offset limit ts =
      if_in_scope "read_file" asked (resolve_read ctx.workspace asked) (λ path. do
        there ← in_world (is_file ctx.workspace path)
        if there
            then read_lines path offset limit ts
            else failure f ctx "read_file" (t.missing_hint path))

  -- `WriteFile.run`.
  unfoldable pub write_file_run : FilePath → String → Exec (Counted W) ToolResult
  unfolding if_in_scope resolve_write mkdir write_text result
  write_file_run asked content =
      if_in_scope "write_file" asked (resolve_write ctx.workspace asked) (λ path. do
        in_world (mkdir ctx.workspace (ctx.workspace.fs.parent path) true true)
        in_world (write_text ctx.workspace path content)
        result f ctx "write_file"
            (joined "wrote " (
              joined (f.numeral (pos (text_length content)))
                (joined " chars to " (f.path_text path))))
            ".txt")

  unfoldable pub appended : FilePath → String → Result (Unit {0}) → Exec (Counted W) ToolResult
  unfolding result failure
  appended asked content (ok _) =
      result f ctx "append_file"
        (joined "appended " (
          joined (f.numeral (pos (text_length content))) (joined " chars to " (f.path_text asked))))
        ".txt"
  appended asked content (raise scope_error) = failure f ctx "append_file" (t.out_of_scope asked)
  appended asked content (raise e) = lift (raise e)

  -- `AppendFile.run`, whose writing is all within the `try`.
  unfoldable pub append_file_run : FilePath → String → Exec (Counted W) ToolResult
  unfolding append_line appended
  append_file_run asked content s =
      let (r, s') = in_world (append_line ctx.workspace asked content) s in
      appended asked content r s'

  -- `DeleteFile.run`.
  unfoldable pub delete_file_run : FilePath → Exec (Counted W) ToolResult
  unfolding if_in_scope resolve_write unlink result
  delete_file_run asked =
      if_in_scope "delete_file" asked (resolve_write ctx.workspace asked) (λ path. do
        in_world (unlink ctx.workspace path)
        result f ctx "delete_file" (joined "deleted " (f.path_text path)) ".txt")

  -- `ListDir.run`.
  unfoldable pub list_dir_run : FilePath → Exec (Counted W) ToolResult
  unfolding if_in_scope resolve_read is_dir iterdir result failure join_lines name_of
  list_dir_run asked = if_in_scope "list_dir" asked (resolve_read ctx.workspace asked) (λ path. do
    there ← in_world (is_dir ctx.workspace path)
    if there
        then (do
          entries ← in_world (iterdir ctx.workspace path)
          result f ctx "list_dir" (join_lines (t.sort_names (map name_of entries))) ".txt")
        else failure f ctx "list_dir" (t.missing_hint path))

  edited : FilePath → String → Option String → Exec (Counted W) ToolResult
  unfolding write_text result failure
  edited path old none =
      failure f ctx "edit_file" (joined (t.quoted old) (joined " not found in " (f.path_text path)))
  edited path old (some changed) = do
    in_world (write_text ctx.workspace path changed)
    result f ctx "edit_file" (joined "edited " (f.path_text path)) ".txt"

  -- `EditFile.run`: a text without the old one is left alone.
  unfoldable pub edit_file_run : FilePath → String → String → Exec (Counted W) ToolResult
  unfolding if_in_scope resolve_write read_text edited
  edit_file_run asked old new =
      if_in_scope "edit_file" asked (resolve_write ctx.workspace asked) (λ path. do
        original ← in_world (read_text ctx.workspace path)
        edited path old (t.replace_first old new original))
