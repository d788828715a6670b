-- ===== src/Tools/Context.antt =====
-- ToolContext of tools/registry/tool_context.py: what a tool is given, and how its output is written.
use ancalagon.Base.{
  ℕ, suc, ℤ, String, joined, text_length, take_text, FilePath, true, false, ltb, List, [], ◌∷◌,
  ◌++◌, ok,
}
use ancalagon.Base.Exec.{Exec, pure, lift, ◌>>=◌, ◌>>◌}
use ancalagon.Session.Tools.{Payload, ToolResult}
use ancalagon.Tools.Workspace.{Workspace, resolve_write, mkdir, write_text, append_line, changed_at}
use ancalagon.Tools.Paging.{page, note}

-- What texts are made with: numerals, four digits or more of them, the text of a path, the length in
-- UTF-8 and the JSON of an access.
pub record Formats : Type 0 where
  pub numeral : ℤ → String
  pub padded : ℕ → String
  pub path_text : FilePath → String
  pub utf8_length : String → ℕ
  pub access : (ts agent : ℕ) (path : FilePath) (changed_at : ℕ) → String

pub record ToolContext (W : Type 0) : Type 0 where
  pub workspace : Workspace W
  pub task_dir : FilePath
  pub output_dir : FilePath
  pub summary_chars : ℕ
  pub agent_id : ℕ

-- The world, and the next number of `counter`.
pub record Counted (W : Type 0) : Type 0 where
  pub world : W
  pub counter : ℕ

module _ {W : Type 0} where
  -- `ToolContext.__init__`.
  unfoldable pub context_for : Workspace W → FilePath → ℕ → ℕ → (ℕ → String) → ToolContext W
  context_for workspace task_dir summary_chars agent_id id_text = record {
    workspace = workspace;
    task_dir = task_dir;
    output_dir = task_dir ++ "tools" ∷ id_text agent_id ∷ [];
    summary_chars = summary_chars;
    agent_id = agent_id;
  }

  abbrev pub in_world : {A : Type 0} → Exec W A → Exec (Counted W) A
  in_world op s = let (r, w) = op s.world in (r, record s { world = w })

  -- `next(self.counter)`.
  abbrev next_number : Exec (Counted W) ℕ
  next_number s = (ok s.counter, record s { counter = suc s.counter })

  module _ (f : Formats) (ctx : ToolContext W) where
    -- `record`, at a time of the clock.
    unfoldable pub record_access : FilePath → ℕ → Exec (Counted W) (Unit {0})
    unfolding changed_at append_line
    record_access path ts = do
      changed ← in_world (changed_at ctx.workspace path)
      in_world (
          append_line ctx.workspace (ctx.task_dir ++ "access.jsonl" ∷ [])
            (f.access ts ctx.agent_id path changed))

    abbrev output_name : ℕ → String → String → String
    output_name number tool_name suffix =
        joined (f.padded number) (joined "-" (joined tool_name suffix))

    unfoldable pub write_output : String → String → String → Exec (Counted W) FilePath
    unfolding resolve_write mkdir write_text
    write_output tool_name text suffix = do
      number ← next_number
      path ←
          lift (
            resolve_write ctx.workspace
              (ctx.output_dir ++ output_name number tool_name suffix ∷ []))
      in_world (mkdir ctx.workspace (ctx.workspace.fs.parent path) true true)
      in_world (write_text ctx.workspace path text)
      pure path

    unfoldable pub result : String → String → String → Exec (Counted W) ToolResult
    unfolding write_output
    result tool_name text suffix = do
      path ← write_output tool_name text suffix
      pure (record {
        is_ok = true;
        summary = Payload.other (take_text ctx.summary_chars text);
        path = f.path_text path;
        byte_count = f.utf8_length text;
        truncated = ltb ctx.summary_chars (text_length text);
        error = "";
      })

    unfoldable pub full_result : String → String → String → Exec (Counted W) ToolResult
    unfolding write_output
    full_result tool_name text suffix = do
      path ← write_output tool_name text suffix
      pure (record {
        is_ok = true;
        summary = Payload.other text;
        path = f.path_text path;
        byte_count = f.utf8_length text;
        truncated = false;
        error = "";
      })

    unfoldable pub paged : String → List String → ℤ → ℕ → Exec (Counted W) ToolResult
    unfolding write_output page note
    paged tool_name lines offset total =
        let p = page f.numeral ctx.summary_chars lines offset total in
        do
          path ← write_output tool_name p.whole ".txt"
          pure (record {
            is_ok = true;
            summary =
                Payload.other
                  (joined p.body (joined "\n" (note f.numeral offset p.final total p.has_more)));
            path = f.path_text path;
            byte_count = f.utf8_length p.whole;
            truncated = p.has_more;
            error = "";
          })

    -- The line to the log is left out.
    unfoldable pub failure : String → String → Exec (Counted W) ToolResult
    unfolding write_output
    failure tool_name error = do
      path ← write_output tool_name error ".err.txt"
      pure (record {
        is_ok = false;
        summary = Payload.other (take_text ctx.summary_chars error);
        path = f.path_text path;
        byte_count = 0;
        truncated = false;
        error = error;
      })
