-- ===== src/Transcript/Fork.antt =====
-- fork.py: a conversation cut at a message, for a new run to carry on from.
use ancalagon.Base.{
  raise-ok, ℕ, ◌+◌, ltb, leb, ◌≡◌, ◌≢◌, refl, ap, subst, if-true, if-false, Option, true, none,
  false, String, same_text, ◌||◌, any, some, List, [], ◌∷◌, ◌++◌, select, last, Result, ok, raise,
  require, >>=-eq-ok, ok-injective, sym, ◌∙◌, value_error, lookup_error, ◌>>=◌, if◌then◌else◌,
  Bool-cases, inl, inr, ◌⊎◌,
}
use ancalagon.Contracts.Messages.{MessageRole, Block, text, tool_use, tool_result, Message, is_user}
use ancalagon.Transcript.History.{repair, last-snoc, Extends, Extends-append, repair-Extends}

abbrev pub acknowledged : String
acknowledged = "Understood."

-- `[message for message in messages if message.seq < at]`.
unfoldable pub kept_before : ℕ → List Message → List Message
kept_before at messages = select (λ m. ltb m.seq at) messages

-- The parse of a delegate's arguments, which may raise; what formats the notice; the clock.
module _ (task_id : String → Result String) (notice : ℕ → List String → String) (now : ℕ) where
  orphans_in : List String → List Block → Result (List String)
  orphans_in delegates [] = ok []
  orphans_in delegates (text s ∷ blocks) = orphans_in delegates blocks
  orphans_in delegates (tool_result b ∷ blocks) = orphans_in delegates blocks
  orphans_in delegates (tool_use u ∷ blocks) =
      let rest = orphans_in delegates blocks in
      if any (same_text u.name) delegates
      then (do id ← task_id u.arguments; ids ← rest; ok (id ∷ ids))
      else rest

  unfoldable pub orphaned : List Message → List String → Result (List String)
  unfolding orphans_in
  orphaned [] delegates = ok []
  orphaned (m ∷ messages) delegates = do
    ids ← orphans_in delegates m.blocks
    rest ← orphaned messages delegates
    ok (ids ++ rest)

  -- `_appended`.
  unfoldable pub appended : MessageRole → String → Message → Message
  appended role s after = record {
    role = role;
    blocks = text s ∷ [];
    agent = after.agent;
    seq = after.seq + 1;
    ts = now;
  }

  -- The answered conversation, ended by the assistant.
  bridged : List Message → Message → List Message
  unfolding appended
  bridged answered m =
      if is_user m.role
      then answered ++ appended MessageRole.assistant acknowledged m ∷ []
      else answered

  with_notice : String → List Message → Result (List Message)
  unfolding appended
  with_notice said messages = do
    m ← require lookup_error (last messages)
    ok (messages ++ appended MessageRole.user said m ∷ [])

  noticed : ℕ → List Message → List String → Result (List Message)
  unfolding bridged with_notice repair
  noticed at kept [] = ok kept
  noticed at kept (t ∷ tasks) =
      let answered = repair kept in
      do
        m ← require lookup_error (last answered)
        with_notice (notice at (t ∷ tasks)) (bridged answered m)

  fork_at : ℕ → List String → List Message → Result (List Message)
  unfolding orphaned noticed
  fork_at at delegates kept = do tasks ← orphaned kept delegates; noticed at kept tasks

  -- `forked`; the position is not negative here, as a negative one is refused as 0 is.
  unfoldable pub forked : List Message → ℕ → List String → Result (List Message)
  unfolding kept_before fork_at
  forked messages at delegates = do
    m ← require lookup_error (last messages)
    if leb at 0 || ltb (m.seq + 1) at
        then raise value_error
        else fork_at at delegates (kept_before at messages)

-- What goes before the notice: the conversation with its open calls answered, and then, just where its
-- last message is the user's, an acknowledgement by the assistant, numbered next.
pub record IsBridged (kept before : List Message) : Type 0 where
  pub extends : Extends kept before
  pub answered : Message
  pub last_answered : last (repair kept) ≡ some answered
  pub end : Message
  pub ends : last before ≡ some end
  pub acknowledges :
      (is_user answered.role ≡ false) × (before ≡ repair kept)
      ⊎ (is_user answered.role ≡ true)
        × (before ≡ repair kept ++ end ∷ [])
        × (end.role ≡ MessageRole.assistant)
        × (end.blocks ≡ text acknowledged ∷ [])
        × (end.seq ≡ answered.seq + 1)

-- The notice: the user's, numbered next, and nothing else in it.
pub record IsNotice (said : String) (after m : Message) : Type 0 where
  pub by_user : m.role ≡ MessageRole.user
  pub says : m.blocks ≡ text said ∷ []
  pub next : m.seq ≡ after.seq + 1

-- A fork whose tasks are orphaned.
abbrev pub Noticed :
    (ℕ → List String → String) → ℕ → List Message → List String → List Message → Type 0
Noticed notice at kept tasks result =
    (before : List Message) × (bridge : IsBridged kept before) × (m : Message) × (result
      ≡ before ++ m ∷ [])
    × IsNotice (notice at tasks) bridge.end m

some-injective : {A : Type 0} {a b : A} → some a ≡ some b → a ≡ b
some-injective h = cc

required : {A : Type 0} (o : Option A) (a : A) → require lookup_error o ≡ ok a → o ≡ some a
required none a h = raise-ok h
required (some b) a h = ap some (ok-injective h)

module _ (task_id : String → Result String) (notice : ℕ → List String → String) (now : ℕ) where
  noticed-nil :
      (at : ℕ) (kept result : List Message)
      → noticed task_id notice now at kept [] ≡ ok result
      → result ≡ kept
  unfolding noticed
  noticed-nil at kept result h = sym (ok-injective h)

  bridged-IsBridged :
      (kept : List Message) (m : Message)
      → last (repair kept) ≡ some m
      → IsBridged kept (bridged task_id notice now (repair kept) m)
  unfolding bridged appended
  bridged-IsBridged kept m e = elim (Bool-cases (is_user m.role)) [
    | inl user ↦
        let ack = appended task_id notice now MessageRole.assistant acknowledged m in
        subst (IsBridged kept) (sym (if-true _ _ user)) (record {
          extends = Extends-append kept (repair kept) (ack ∷ []) (repair-Extends kept);
          answered = m;
          last_answered = e;
          end = ack;
          ends = last-snoc (repair kept) ack;
          acknowledges = inr (user, refl, refl, refl, refl);
        })
    | inr assistant ↦ subst (IsBridged kept) (sym (if-false _ _ assistant)) (record {
      extends = repair-Extends kept;
      answered = m;
      last_answered = e;
      end = m;
      ends = e;
      acknowledges = inl (assistant, refl);
    })
  ]

  noticed-Noticed :
      (at : ℕ) (kept : List Message) (t : String) (tasks : List String) (result : List Message)
      → noticed task_id notice now at kept (t ∷ tasks) ≡ ok result
      → Noticed notice at kept (t ∷ tasks) result
  unfolding noticed with_notice appended
  noticed-Noticed at kept t tasks result h =
      let (m, found, said) = >>=-eq-ok (require lookup_error (last (repair kept))) _ h in
      let bridge = bridged-IsBridged kept m (required _ _ found) in
      let before = bridged task_id notice now (repair kept) m in
      let (m', at_end, done) = >>=-eq-ok (require lookup_error (last before)) _ said in
      let same : m' ≡ bridge.end = some-injective (sym (required _ _ at_end) ∙ bridge.ends) in
      (
        before,
        bridge,
        appended task_id notice now MessageRole.user (notice at (t ∷ tasks)) m',
        sym (ok-injective done),
        record { by_user = refl; says = refl; next = ap (λ (z : Message). z.seq + 1) same },
      )

-- What a fork at a message gives: the messages numbered below it, if none of them delegated a task.
-- Otherwise some did, and it is these messages, with their open calls answered; an acknowledgement, just
-- where their last is then the user's; and one message more, numbered next: the user's, that is the
-- notice of just the tasks that were delegated in them.
pub forked-kept_before :
    (task_id : String → Result String) (notice : ℕ → List String → String) (now : ℕ)
    (messages : List Message) (at : ℕ) (delegates : List String) (result : List Message)
    → forked task_id notice now messages at delegates ≡ ok result
    → (orphaned task_id notice now (kept_before at messages) delegates ≡ ok [])
        × (result ≡ kept_before at messages)
      ⊎ (tasks : List String) × (orphaned task_id notice now (kept_before at messages) delegates
          ≡ ok tasks)
        × (tasks ≢ [])
        × Noticed notice at (kept_before at messages) tasks result
unfolding forked fork_at
forked-kept_before task_id notice now messages at delegates result h =
    let (m, e, placed) = >>=-eq-ok (require lookup_error (last messages)) _ h in
    elim (Bool-cases (leb at 0 || ltb (m.seq + 1) at)) [
      | inl out ↦ raise-ok (rw out at placed)
      | inr within ↦
          let (tasks, orphans, said) =
            >>=-eq-ok (orphaned task_id notice now (kept_before at messages) delegates) _
              (rw within at placed) in
          by_tasks tasks orphans said
    ]
  where
    nonempty : (t : String) (tasks : List String) → (t ∷ tasks) ≢ []
    nonempty t tasks e = cc

    by_tasks :
        (tasks : List String)
        → orphaned task_id notice now (kept_before at messages) delegates ≡ ok tasks
        → noticed task_id notice now at (kept_before at messages) tasks ≡ ok result
        → (orphaned task_id notice now (kept_before at messages) delegates ≡ ok [])
            × (result ≡ kept_before at messages)
          ⊎ (tasks : List String) × (orphaned task_id notice now (kept_before at messages) delegates
              ≡ ok tasks)
            × (tasks ≢ [])
            × Noticed notice at (kept_before at messages) tasks result
    by_tasks [] orphans e =
        inl (orphans, noticed-nil task_id notice now at (kept_before at messages) result e)
    by_tasks (t ∷ tasks) orphans e = inr (
      t ∷ tasks,
      orphans,
      nonempty t tasks,
      noticed-Noticed task_id notice now at (kept_before at messages) t tasks result e,
    )
