-- ===== src/Assembly/TaskTools.antt =====
-- The class attributes of the tools in tools/history, parse, shell, web, delegate, need_input, idle and watch.
use ancalagon.Session.Tools.{ToolCategory}
use ancalagon.Assembly.ToolClass.{ToolClass}

abbrev pub git_history : ToolClass
git_history = record {
  source = "GitHistory";
  name = "git_history";
  description =
      "Ask git why a file looks the way it does. log lists the commits that touched it, newest first; blame attributes every line to a commit; show displays one commit given rev. Commit messages often state intent that the code cannot.";
  category = ToolCategory.history;
  cost = 1;
}

abbrev pub tree_sitter : ToolClass
tree_sitter = record {
  source = "TreeSitter";
  name = "treesitter";
  description = "Parse a source file and emit its AST nodes as JSON.";
  category = ToolCategory.parse;
  cost = 1;
}

abbrev pub ast_query : ToolClass
ast_query = record {
  source = "AstQuery";
  name = "ast_query";
  description =
      "Run a tree-sitter query over source files and return every match, with each named capture's node type, byte range, row and column, and its text. Use this rather than ast_grep when the parts of a match need naming, or their exact locations are wanted.";
  category = ToolCategory.parse;
  cost = 1;
}

abbrev pub shell : ToolClass
shell = record {
  source = "Shell";
  name = "shell";
  description =
      "Run a shell command line in a directory and capture its output. Killed after 120 seconds.";
  category = ToolCategory.shell;
  cost = 1;
}

abbrev pub web_search : ToolClass
web_search = record {
  source = "WebSearch";
  name = "web_search";
  description =
      "Search the web. Returns ranked results, each a title, a URL and a snippet. Follow a result with fetch_url to read the page itself; the snippet alone is not evidence.";
  category = ToolCategory.web;
  cost = 1;
}

abbrev pub fetch_url : ToolClass
fetch_url = record {
  source = "FetchUrl";
  name = "fetch_url";
  description =
      "Fetch an https page and return its article text, with navigation and markup removed. Fails on anything it cannot take prose from, such as a PDF or a JSON endpoint.";
  category = ToolCategory.web;
  cost = 1;
}

abbrev pub check_task : ToolClass
check_task = record {
  source = "CheckTask";
  name = "check_task";
  description =
      "Report the status of a delegated task without waiting. This does not consume your tool-call budget.";
  category = ToolCategory.tasks;
  cost = 0;
}

abbrev pub collect_task : ToolClass
collect_task = record {
  source = "CollectTask";
  name = "collect_task";
  description =
      "Read a finished task's answer. Returns the answer itself, not a wrapper. Reports an error if the task is unfinished or did not produce one.";
  category = ToolCategory.tasks;
  cost = 1;
}

abbrev pub answer_task : ToolClass
answer_task = record {
  source = "AnswerTask";
  name = "answer_task";
  description =
      "Answer a task that stopped with a question, so it continues from where it left off with your answer and everything it had already worked out. Read the question with check_task first. Only a task that is waiting can be answered.";
  category = ToolCategory.tasks;
  cost = 1;
}

abbrev pub need_input : ToolClass
need_input = record {
  source = "NeedInput";
  name = "need_input";
  description =
      "Stop and hand a question back to whoever launched this task. Use when you cannot proceed without information you have no way to obtain. This does not consume your tool-call budget.";
  category = ToolCategory.lifecycle;
  cost = 0;
}

abbrev pub idle : ToolClass
idle = record {
  source = "Idle";
  name = "idle";
  description =
      "Stop and wait. Use when you have nothing left to do: your children are still working and you need one of them to report back, or there is nothing for you until something arrives. This does not consume your tool-call budget.";
  category = ToolCategory.lifecycle;
  cost = 0;
}

abbrev pub no_idle : ToolClass
no_idle = record idle { source = "NoIdle" }

abbrev pub watch_file : ToolClass
watch_file = record {
  source = "WatchFile";
  name = "watch_file";
  description =
      "Wait for a file to grow. Queues a watcher that ends the moment the file is larger than it is right now, which wakes you once you idle. Its size is measured for you.";
  category = ToolCategory.watch;
  cost = 1;
}

abbrev pub no_watch_file : ToolClass
no_watch_file = record watch_file { source = "NoWatchFile" }
