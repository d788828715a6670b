-- ===== src/Assembly/FileTools.antt =====
-- The class attributes of the tools in tools/files, compare, cite, search, survey and artifacts.
use ancalagon.Session.Tools.{ToolCategory}
use ancalagon.Assembly.ToolClass.{ToolClass}

abbrev pub read_file : ToolClass
read_file = record {
  source = "ReadFile";
  name = "read_file";
  description =
      "Read a file inside the configured read roots. Returns whole lines from offset, each prefixed with its line number and a tab, and states which lines it showed of how many exist. Cite those numbers as they are printed; do not count lines yourself. If the file is larger than one reply can carry, call again with offset set past the last line shown.";
  category = ToolCategory.files;
  cost = 1;
}

abbrev pub write_file : ToolClass
write_file = record {
  source = "WriteFile";
  name = "write_file";
  description = "Write a file inside a write root.";
  category = ToolCategory.files;
  cost = 1;
}

abbrev pub append_file : ToolClass
append_file = record {
  source = "AppendFile";
  name = "append_file";
  description =
      "Add one line to the end of a file inside a write root, creating it if it is not there. Use this rather than write_file to add to a file others also write to: it never reads the file, so it cannot overwrite what arrived since you last read.";
  category = ToolCategory.files;
  cost = 1;
}

abbrev pub edit_file : ToolClass
edit_file = record {
  source = "EditFile";
  name = "edit_file";
  description = "Replace an exact substring in a file inside a write root.";
  category = ToolCategory.files;
  cost = 1;
}

abbrev pub delete_file : ToolClass
delete_file = record {
  source = "DeleteFile";
  name = "delete_file";
  description = "Delete a file inside a write root.";
  category = ToolCategory.files;
  cost = 1;
}

abbrev pub list_dir : ToolClass
list_dir = record {
  source = "ListDir";
  name = "list_dir";
  description = "List a directory inside the configured read roots.";
  category = ToolCategory.files;
  cost = 1;
}

abbrev pub diff_regions : ToolClass
diff_regions = record {
  source = "DiffRegions";
  name = "diff_regions";
  description =
      "Compare two ranges of lines, in the same file or in two files, and get them aligned row by row: '= left:right text' for a line that matches, '- left:- text' for one only in the left range, '+ -:right text' for one only in the right. Both line numbers are the file's own, so a row can be cited as it stands. Trailing blanks are ignored, nothing else is. Use it to decide whether two declarations are the same instead of reading both and comparing them by eye.";
  category = ToolCategory.compare;
  cost = 2;
}

abbrev pub cite : ToolClass
cite = record {
  source = "Cite";
  name = "cite";
  description =
      "Record what one span of one file says, so that a later turn can use it without reading the file again. The quote must appear in the lines you cite, and the call fails when it does not. Every citation is appended to citations.jsonl in your task directory; read that file when you are ready to answer.";
  category = ToolCategory.cite;
  cost = 1;
}

abbrev pub ripgrep : ToolClass
ripgrep = record {
  source = "Ripgrep";
  name = "ripgrep";
  description =
      "Search files by regular expression. Returns path:line:text per match. Set structured=true for one JSON record per match instead.";
  category = ToolCategory.search;
  cost = 1;
}

abbrev pub ast_grep : ToolClass
ast_grep = record {
  source = "AstGrep";
  name = "ast_grep";
  description = "Structural code search by AST pattern.";
  category = ToolCategory.search;
  cost = 1;
}

abbrev pub transform_file : ToolClass
transform_file = record {
  source = "TransformFile";
  name = "transform_file";
  description =
      "Read a file through a transformation, when the file as it stands is hard to read. Strip comments, drop blank lines, or keep only the region you care about, and get the result back as a new file you can read. The original is never changed, so this cannot edit anything -- use edit_file or append_file for that.";
  category = ToolCategory.search;
  cost = 1;
}

abbrev pub find_symbol : ToolClass
find_symbol = record {
  source = "FindSymbol";
  name = "find_symbol";
  description =
      "Find where a symbol is defined, as name, kind, line, file and the declaring line itself. Unlike a text search this returns definitions rather than every mention. Omit name to list every definition in the given roots.";
  category = ToolCategory.search;
  cost = 1;
}

abbrev pub code_stats : ToolClass
code_stats = record {
  source = "CodeStats";
  name = "code_stats";
  description =
      "Survey a tree before reading it: languages, file and line counts, and an estimated complexity score. Set by_file=true to see which individual files carry the most complexity, which is usually where to start reading.";
  category = ToolCategory.survey;
  cost = 1;
}

abbrev pub file_type : ToolClass
file_type = record {
  source = "FileType";
  name = "file_type";
  description =
      "Identify what a file is -- text, binary, archive, image, database -- before trying to read it. Use this first on anything whose format you do not know.";
  category = ToolCategory.artifacts;
  cost = 1;
}

abbrev pub extract_strings : ToolClass
extract_strings = record {
  source = "ExtractStrings";
  name = "extract_strings";
  description =
      "Pull printable text out of a binary or other non-text artifact. Raise min_length to cut noise; embedded paths, messages and format strings often reveal what the thing does.";
  category = ToolCategory.artifacts;
  cost = 1;
}

abbrev pub convert_document : ToolClass
convert_document = record {
  source = "ConvertDocument";
  name = "convert_document";
  description =
      "Convert a document -- docx, odt, epub, rtf, latex, html and others -- into markdown, plain text, html, or pandoc's JSON abstract syntax tree. Use json when you need the document's structure rather than its prose.";
  category = ToolCategory.artifacts;
  cost = 1;
}

abbrev pub query_json : ToolClass
query_json = record {
  source = "QueryJson";
  name = "query_json";
  description =
      "Run a jq filter over a JSON file and return only what matches, so a large document need not be read whole. Add --slurp semantics yourself if the file is JSONL. Example filters: '.nodes[].id', 'keys', '.[] | select(.kind)'.";
  category = ToolCategory.artifacts;
  cost = 1;
}

abbrev pub edit_json : ToolClass
edit_json = record {
  source = "EditJson";
  name = "edit_json";
  description =
      "Change one place in a JSON file inside a write root, leaving the rest alone. Use this to build a large answer across many small calls instead of writing the whole file each time. set replaces what is at the pointer, append adds to the array there, remove deletes the key. The file must already exist; write_file with {} creates it.";
  category = ToolCategory.artifacts;
  cost = 1;
}
