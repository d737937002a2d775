-- ===== src/Executor/Compaction/Keeping.antt =====
-- src/executor/compaction.ts: what the two ways to shorten a conversation leave of it.
use mathlib.Core.Path.{subst}
use hera_v.Shared.{
  ℕ, zero, suc, none, min, all, ◌+◌, ◌-◌, ◌≤◌, ◌≡◌, refl, sym, ap, ◌∙◌, Bool, true, false, not,
  ◌&&◌, ◌⊎◌, List, [], ◌∷◌, ◌++◌, arith, length, if◌then◌else◌, ltb, any, keep_if, drop, take,
  length-drop, take-append-drop, Bool-cases, inl, inr, length-append,
}
use hera_v.Shared.Text.{Text}
use hera_v.Executor.Compaction.{
  Entry, is_tool, remove_first, drop_loop, drop_old_tool_results, cut_tools, kept_tail, compacted,
  keep_tail_messages,
}
use hera_v.Session.Records.{user}

-- The messages of the user and of the model.
abbrev pub spoken : List Entry → List Entry
spoken = keep_if (λ m. not (is_tool m))

length-remove_first :
    (messages : List Entry)
    → any is_tool messages ≡ true
    → suc (length (remove_first messages)) ≡ length messages
unfolding remove_first
length-remove_first [] h = cc
length-remove_first (m ∷ messages) h = ground (arith, h, length-remove_first messages)

spoken-remove_first : (messages : List Entry) → spoken (remove_first messages) ≡ spoken messages
unfolding remove_first
spoken-remove_first [] = refl
spoken-remove_first (m ∷ messages) = ground (arith, spoken-remove_first messages)

pub record Shortens (floor : ℕ) (messages rest : List Entry) (dropped : ℕ) : Type 0 where
  pub counted : dropped + length rest ≡ length messages
  pub speech : spoken rest ≡ spoken messages
  pub done : (length rest ≤ floor) ⊎ (any is_tool rest ≡ false)
  pub sparing : 1 ≤ dropped → floor ≤ length rest

no_entries : (messages : List Entry) → length messages ≤ 0 → any is_tool messages ≡ false
no_entries [] h = refl
no_entries (m ∷ messages) h = absurd (omega (arith, h))

stop-Shortens :
    (floor : ℕ) (messages : List Entry)
    → (ltb floor (length messages) && any is_tool messages) ≡ false
    → Shortens floor messages messages 0
stop-Shortens floor messages h = record {
  counted = omega arith;
  speech = refl;
  done = ground (arith, h);
  sparing = λ some_dropped. absurd (omega (arith, some_dropped));
}

spared :
    {floor : ℕ} {messages rest : List Entry} (dropped : ℕ)
    → Shortens floor messages rest dropped
    → floor ≤ length messages
    → floor ≤ length rest
spared zero s long = omega (arith, s.counted, long)
spared (suc dropped) s long = s.sparing (omega arith)

more-Shortens :
    (floor dropped : ℕ) (messages rest : List Entry)
    → (ltb floor (length messages) && any is_tool messages) ≡ true
    → Shortens floor (remove_first messages) rest dropped
    → Shortens floor messages rest (suc dropped)
more-Shortens floor dropped messages rest h s =
    let shorter : suc (length (remove_first messages)) ≡ length messages =
      length-remove_first messages (ground (arith, h)) in
    let long : floor ≤ length (remove_first messages) = ground (arith, h, shorter) in
    record {
      counted = omega (arith, s.counted, shorter);
      speech = s.speech ∙ spoken-remove_first messages;
      done = s.done;
      sparing = λ _. spared dropped s long;
    }

drop_loop-Shortens :
    (fuel floor : ℕ) (messages : List Entry)
    → length messages ≤ fuel
    → Shortens floor messages (drop_loop fuel floor messages).0 (drop_loop fuel floor messages).1
unfolding drop_loop
drop_loop-Shortens zero floor messages h =
    stop-Shortens floor messages (ground (arith, no_entries messages h))
drop_loop-Shortens (suc fuel) floor messages h =
    let rest = (drop_loop fuel floor (remove_first messages)).0 in
    let dropped = (drop_loop fuel floor (remove_first messages)).1 in
    elim (Bool-cases (ltb floor (length messages) && any is_tool messages)) [
      | inl more ↦
          subst
            (λ b.
              let shortened : List Entry × ℕ = if b then (rest, suc dropped) else (messages, 0) in
              Shortens floor messages shortened.0 shortened.1)
            (sym more)
            (more-Shortens floor dropped messages rest more (
              drop_loop-Shortens fuel floor (remove_first messages)
                (ground (arith, h, more, length-remove_first messages))))
      | inr over ↦
          subst
            (λ b.
              let shortened : List Entry × ℕ = if b then (rest, suc dropped) else (messages, 0) in
              Shortens floor messages shortened.0 shortened.1)
            (sym over) (stop-Shortens floor messages over)
    ]

-- Dropping old tool results loses no message of the user or the model and counts what it drops. It
-- goes on until the conversation is short enough or has no tool result left, and never below the
-- floor.
pub drop_old_tool_results-Shortens :
    (messages : List Entry) (floor : ℕ)
    → Shortens floor messages
        (drop_old_tool_results messages floor).0
        (drop_old_tool_results messages floor).1
unfolding drop_old_tool_results
drop_old_tool_results-Shortens messages floor =
    drop_loop-Shortens (length messages) floor messages (omega arith)

abbrev pub starts_with_tool : List Entry → Bool
starts_with_tool [] = false
starts_with_tool (m ∷ messages) = is_tool m

cut_tools-suffix :
    (tail : List Entry)
    → (cut : List Entry) × (cut ++ cut_tools tail ≡ tail) × (all is_tool cut ≡ true)
unfolding cut_tools
cut_tools-suffix [] = ([], refl, refl)
cut_tools-suffix (m ∷ tail) = elim (Bool-cases (is_tool m)) [
  | inl result ↦
      let (cut, joined, tools) = cut_tools-suffix tail in
      (m ∷ cut, rw result (ap (λ l. m ∷ l) joined), ground arith)
  | inr speech ↦ ([], rw speech refl, refl)
]

cut_tools-start : (tail : List Entry) → starts_with_tool (cut_tools tail) ≡ false
unfolding cut_tools
cut_tools-start [] = refl
cut_tools-start (m ∷ tail) = ground (arith, cut_tools-start tail)

-- The conversation after a compaction is the user's message with the checkpoint and then an end of the
-- old one: its last six messages, or all where there are fewer, less the tool results that these
-- begin with, which would answer calls that are gone. It begins with no tool result, and the count
-- that is reported is that of the messages left out.
pub compacted-suffix :
    (text : Text) (messages : List Entry)
    → (early cut tail : List Entry) × ((compacted text messages).0
        ≡ record { role = user; content = text; calls = []; usage = none } ∷ tail)
      × (early ++ (cut ++ tail) ≡ messages)
      × (length (cut ++ tail) ≡ min 6 (length messages))
      × (all is_tool cut ≡ true)
      × (starts_with_tool tail ≡ false)
      × ((compacted text messages).1 ≡ length early + length cut)
unfolding compacted kept_tail
compacted-suffix text messages =
    let n = length messages - keep_tail_messages in
    let (cut, joined, tools) = cut_tools-suffix (drop n messages) in
    let tail = cut_tools (drop n messages) in
    let early = take n messages in
    let whole : early ++ (cut ++ tail) ≡ messages =
      ap (λ l. early ++ l) joined ∙ take-append-drop n messages in
    let size : length early + length (cut ++ tail) ≡ length messages =
      sym (length-append early (cut ++ tail)) ∙ ap length whole in
    let part : length (cut ++ tail) ≡ length (drop n messages) = ap length joined in
    (
      early,
      cut,
      tail,
      refl,
      whole,
      omega (arith, part, length-drop n messages),
      tools,
      cut_tools-start (drop n messages),
      omega (arith, size, length-append cut tail),
    )
