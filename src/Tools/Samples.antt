-- ===== src/Tools/Samples.antt =====
-- A workspace and a hook, and the theorems at them.
use ancalagon.Base.{
  ℕ, ◌≡◌, refl, FilePath, is_relative_to, Bool, true, false, ◌||◌, ◌==◌, any, length, ◌+◌, List, [],
  ◌∷◌, ok, ℤ, pos, String, text_length, arith, none, name_of,
}
use ancalagon.Base.Exec.{pure}
use ancalagon.Tools.Hooks.{accepted, composite_before, composite_before-is_instance}
use ancalagon.Tools.Compare.{
  Opcode, both, only_left, only_right, Alignment, align, rows_of, line, align-rows,
}
use ancalagon.Base.{drop}
use ancalagon.Tools.Paging.{page, numbered_from, kept, kept_of, fitting_from, join_lines}
use ancalagon.Tools.Pages.{IsPage, page-IsPage}
use ancalagon.Tools.Reading.{read_on, read_on-numbered_from}
use ancalagon.Tools.Context.{Formats, ToolContext, context_for}
use ancalagon.Tools.Files.{
  Texts, read_file_run, list_dir_run, write_file_run, append_file_run, delete_file_run,
  edit_file_run,
}
use ancalagon.Tools.Refusing.{Refuses, resolve_read-Refuses}
use ancalagon.Tools.Workspace.{
  FileSystem, Roots, from_config, resolve_write, resolve_read, resolve_write-resolve_read, is_under,
  workspace_on,
}

abbrev files : FileSystem (Unit {0})
files = record {
  expanduser = λ p. p;
  resolve = λ p. p;
  parent = λ p. p;
  read_text = λ p. pure "";
  iterdir = λ p. pure [];
  changed_at = λ p. pure 0;
  exists = λ p. pure true;
  is_file = λ p. pure true;
  is_dir = λ p. pure false;
  append = λ p s. pure tt;
  write_text = λ p s. pure tt;
  mkdir = λ p a b. pure tt;
  unlink = λ p. pure tt;
}

abbrev roots : Roots
roots = record {
  write_roots = ("/" ∷ "work" ∷ []) ∷ [];
  read_roots = ("/" ∷ "src" ∷ []) ∷ [];
  home = "/" ∷ "home" ∷ [];
}

abbrev report : FilePath
report = "/" ∷ "work" ∷ "report.md" ∷ []

resolve_write-resolve_read_example :
    (resolve_read (from_config roots files) report ≡ ok report)
    × (any (λ root. is_relative_to report root) (from_config roots files).write_roots ≡ true)
unfolding resolve_write is_under from_config workspace_on is_relative_to
resolve_write-resolve_read_example = resolve_write-resolve_read roots files report report refl

-- Values and classes are numbers, and a value is of its own class and of class 0.
abbrev is_a : ℕ → ℕ → Bool
is_a v c = c == 0 || v == c

composite_before-is_instance_example : is_a 7 0 ≡ true
unfolding composite_before
composite_before-is_instance_example =
    composite_before-is_instance {W = Unit {0}} is_a (λ v. v) (λ v. "wrong") 0
      ((λ v. pure (accepted 7)) ∷ []) (λ v u h k. refl) 7 7 tt tt refl refl

-- Two lines that match, then one of the left side in place of one of the right.
abbrev opcodes : List Opcode
opcodes =
    record { is_equal = true; i1 = 0; i2 = 2; j1 = 0; j2 = 2 }
    ∷ record { is_equal = false; i1 = 2; i2 = 3; j1 = 2; j2 = 3 }
    ∷ []

abbrev aligned : Alignment
aligned = record {
  rows = both 10 20 "a" ∷ both 11 21 "b" ∷ only_left 12 "c" ∷ only_right 22 "d" ∷ [];
  matching = 2;
  left_only = 1;
  right_only = 1;
}

align-rows_example : length aligned.rows ≡ aligned.matching + aligned.left_only + aligned.right_only
unfolding align rows_of line
align-rows_example =
    align-rows ("a" ∷ "b" ∷ "c" ∷ []) ("a" ∷ "b" ∷ "d" ∷ []) 10 20 opcodes aligned refl

-- Two lines that fit in a page and one that does not.
abbrev digit : ℤ → String
digit z = "7"

abbrev poem : List String
poem = "one" ∷ "two" ∷ "three" ∷ []

page-poem : (page digit 14 poem (pos 0) 3).body ≡ "7\tone\n7\ttwo"
unfolding page numbered_from kept kept_of fitting_from join_lines text_length
page-poem = refl

page-IsPage_example :
    IsPage 14 0 poem (numbered_from digit (pos 0) poem) (page digit 14 poem (pos 0) 3)
page-IsPage_example = page-IsPage digit 14 0 poem

read_on-numbered_from_example :
    join_lines (read_on digit 14 3 (pos 0) poem)
    ≡ join_lines (numbered_from digit (pos 0) (drop 0 poem))
unfolding numbered_from text_length
read_on-numbered_from_example =
    read_on-numbered_from digit 14 3 0 poem (omega arith) (omega arith)
      (omega arith, (omega arith, (omega arith, tt)))

abbrev formats : Formats
formats = record {
  numeral = digit;
  padded = λ n. "0000";
  path_text = name_of;
  utf8_length = text_length;
  access = λ ts agent path changed. "{}";
}

abbrev texts : Texts
texts = record {
  split_lines = λ text. text ∷ [];
  sort_names = λ names. names;
  replace_first = λ old new text. none;
  missing_hint = λ path. "no file or directory";
  out_of_scope = λ path. "out of scope";
  quoted = λ text. text;
}

abbrev context : ToolContext (Unit {0})
context = context_for (from_config roots files) ("/" ∷ "work" ∷ "task" ∷ []) 100 1 (λ id. "1")

abbrev secret : FilePath
secret = "/" ∷ "etc" ∷ "passwd" ∷ []

resolve_read-Refuses_example :
    ((offset limit : ℤ) (ts : ℕ)
      → Refuses formats texts context "read_file" secret
          (read_file_run formats texts context secret offset limit ts))
    × Refuses formats texts context "list_dir" secret (list_dir_run formats texts context secret)
    × ((content : String)
        → Refuses formats texts context "write_file" secret
            (write_file_run formats texts context secret content))
    × ((content : String)
        → Refuses formats texts context "append_file" secret
            (append_file_run formats texts context secret content))
    × Refuses formats texts context "delete_file" secret
        (delete_file_run formats texts context secret)
    × ((old new : String)
        → Refuses formats texts context "edit_file" secret
            (edit_file_run formats texts context secret old new))
unfolding context_for resolve_read is_under from_config workspace_on is_relative_to
resolve_read-Refuses_example =
    resolve_read-Refuses formats texts roots files context secret refl refl
