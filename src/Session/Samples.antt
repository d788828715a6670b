-- ===== src/Session/Samples.antt =====
-- A session of one tool call and an answer, and the theorem at it.
use ancalagon.Base.{
  ◌≡◌, none, some, All, inl, ℕ, zero, suc, refl, pos, String, true, false, List, ◌+◌, if◌then◌else◌,
  [], ◌∷◌, ok,
}
use ancalagon.Contracts.Messages.{Block, tool_use}
use ancalagon.Contracts.Budgets.{finite, permits, plus_tool_calls, spend_tool_calls}
use ancalagon.Session.Tools.{Call, known, unknown_tool, same_spec, ToolCategory, Payload, BoundTool}
use ancalagon.Session.Profiles.{is_final, Outcome, bound_in, Turn, Delivery, Profile}
use ancalagon.Session.Answering.{Answering, answering, offers}
use ancalagon.Session.Answering.Offered.{MayOffer, offers-MayOffer}
use ancalagon.Session.Rounds.{
  is_answering, Setting, Session, run_tools, run_calls, run_call, cost_of, invoked, is_forcing,
  record_message,
}
use ancalagon.Session.Faults.{
  Role, free_text, no_run, answering_faults, first_fault, run_ref_fault, unchecked_fault,
  deterministic_faults, deterministic_faults-conversing,
}
use ancalagon.Session.Loop.{run, converse}
use ancalagon.Session.Loop.Charging.{IsCharged}
use ancalagon.Session.Loop.Ending.{run-ends}
use ancalagon.Session.Loop.Spending.{IsInBudget, run-IsInBudget}

-- The world counts the calls of the model.
abbrev tool : String → ToolCategory → ℕ → Payload → BoundTool ℕ
tool name category cost summary = record {
  spec = record {
    source = name;
    category = category;
    cost = cost;
    declaration = record { name = name; description = ""; parameters = "{}" };
  };
  invoke = λ arguments w. (
    ok (record {
      is_ok = true;
      summary = summary;
      path = "out.txt";
      byte_count = 1;
      truncated = false;
      error = "";
    }),
    w,
  );
}

abbrev submit : BoundTool ℕ
submit = tool "submit_answer" ToolCategory.submit 0 (Payload.submitted "42")

abbrev shell : BoundTool ℕ
shell = tool "run_shell" ToolCategory.shell 2 (Payload.other "done")

abbrev collect : BoundTool ℕ
collect = tool "collect_task" ToolCategory.tasks 1 (Payload.other "done")

abbrev idle : BoundTool ℕ
idle = tool "idle" ToolCategory.lifecycle 0 (Payload.idled [] (pos 0))

-- A reply that calls the shell, and then one that answers.
abbrev called : ℕ → Block
called zero = tool_use (record { id = "1"; name = "run_shell"; arguments = "ls" })
called (suc n) = tool_use (record { id = "2"; name = "submit_answer"; arguments = "42" })

abbrev profile : Profile ℕ
profile =
    answering (record { terminal = submit.spec; collect = collect.spec; idle = idle.spec })
      (record { instructs = λ turn. "answer now"; nudges = λ turn. "go on" })

abbrev setting : Setting ℕ
setting = record {
  agent_id = 1;
  registry = shell ∷ submit ∷ collect ∷ idle ∷ [];
  profile = profile;
  texts = record {
    shown = λ r. "shown";
    over_budget = λ s a. "over budget";
    refused = λ s e. e;
    answer_summary = λ a. a;
    idling = λ l. "idling";
    said = λ b. "said";
  };
  now = λ w. w;
  write = λ m w. (ok tt, w);
  unread = λ w. ok [];
  mark = λ n w. (ok tt, w);
  outstanding = λ w. ok [];
  uncollected = λ w. ok [];
  complete =
      λ turn messages tools forced w. (ok (record { blocks = called w ∷ []; usage = 1 }), suc w);
  meter = λ usage w. (ok tt, w);
  compact_above_tokens = 0;
  keep_recent_messages = 8;
  pointer = λ b. "gone";
  json_size = λ m. 100;
  noted = λ n. n;
}

abbrev fresh : Session ℕ
fresh = record {
  messages = [];
  remaining = record { turns = finite (pos 3); tool_calls = finite (pos 2) };
  spent = record { turns = 0; tool_calls = 0 };
  seq = 0;
  world = 0;
}

-- A child is still working, so the agent may wait and may not answer.
abbrev waiting : Turn ℕ
waiting = record {
  offered = setting.registry;
  remaining = fresh.remaining;
  spent = fresh.spent;
  outstanding = 4 ∷ [];
  uncollected = [];
  tries = pos 2;
  delivered = Delivery.nothing;
}

-- The shell, which is charged, and an unknown tool, which is not.
abbrev calls : List (Call ℕ)
calls =
    known (record { id = "1"; tool = shell; arguments = "ls" })
    ∷ unknown_tool "2" "no such tool"
    ∷ []

run-IsInBudget_example :
    IsInBudget fresh.remaining (run setting (λ x. "trace") (λ x. "said") 5 fresh).1
    × ((converse setting waiting (pos 2) none fresh).1.spent.turns
        ≡ fresh.spent.turns + (if is_final waiting then 0 else 1))
    × IsCharged setting none fresh (run_tools setting none calls fresh)
run-IsInBudget_example =
    run-IsInBudget setting (λ x. "trace") (λ x. "said") 5 fresh waiting (pos 2) none calls fresh
      refl refl

shell_charged : (run_tools setting none calls fresh).1.spent.tool_calls ≡ 2
unfolding run_tools run_calls run_call cost_of invoked is_forcing permits plus_tool_calls
    spend_tool_calls record_message
shell_charged = refl

abbrev answerer : Answering
answerer = record { terminal = submit.spec; collect = collect.spec; idle = idle.spec }

offers-MayOffer_example : All (MayOffer answerer waiting) (offers answerer waiting)
offers-MayOffer_example = offers-MayOffer answerer waiting

abbrev plain : Role
plain = record { input = free_text; answer = free_text; answer_file = none; run = none }

deterministic_faults-conversing_example :
    deterministic_faults (λ ref. ok (free_text, free_text)) plain ≡ ok (some no_run)
unfolding answering_faults first_fault run_ref_fault unchecked_fault
deterministic_faults-conversing_example =
    deterministic_faults-conversing (λ ref. ok (free_text, free_text)) plain (inl refl)

run-ends_example :
    (outcome : Outcome) × ((run setting (λ x. "trace") (λ x. "said") 6 fresh).0 ≡ some outcome)
unfolding answering bound_in same_spec is_answering
run-ends_example =
    run-ends setting answerer submit [] (λ x. "trace") (λ x. "said") 3 fresh (λ turn. refl) refl
      refl (λ w. refl) refl
