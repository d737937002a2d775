-- ===== src/Executor/Coalescer.antt =====
-- src/executor/agent.ts: DeltaCoalescer, which joins the chunks of a streamed answer. `emitted` holds
-- the events so far, in order; the timer runs or not, and its end is an operation.
use mathlib.Core.List.{append_assoc, append-nil}
use hera_v.Shared.{
  ℕ, ◌<◌, ◌≡◌, refl, ap, sym, ◌∙◌, Bool, true, false, ◌||◌, List, [], ◌∷◌, ◌++◌, if◌then◌else◌, leb,
  ltb, length, arith, if-holds,
}
use hera_v.Shared.Text.{Text}

pub data Kind : Type 0 where
  text_kind thinking_kind : Kind

pub record Delta : Type 0 where
  pub kind : Kind
  pub text : Text

pub record Coalescer : Type 0 where
  pub text : Text
  pub thinking : Text
  pub timer : Bool
  pub emitted : List Delta

unfoldable pub new_coalescer : Coalescer
new_coalescer = record { text = []; thinking = []; timer = false; emitted = [] }

abbrev pub coalesce_chars : ℕ
coalesce_chars = 512

abbrev delta : Kind → Text → List Delta
delta kind t = if ltb 0 (length t) then record { kind = kind; text = t } ∷ [] else []

pub flush : Coalescer → Coalescer
flush c = record {
  text = [];
  thinking = [];
  timer = false;
  emitted = c.emitted ++ (delta thinking_kind c.thinking ++ delta text_kind c.text);
}

abbrev add : Kind → Text → Coalescer → Coalescer
add text_kind t c = record c { text = c.text ++ t }
add thinking_kind t c = record c { thinking = c.thinking ++ t }

pub push : Kind → Text → Coalescer → Coalescer
push kind t c =
    let added = add kind t c in
    if leb coalesce_chars (length added.text) || leb coalesce_chars (length added.thinking)
    then flush added
    else record added { timer = true }

pub data Op : Type 0 where
  chunk : Kind → Text → Op
  -- The timer has run out, or another event is emitted.
  flushes : Op

step : Op → Coalescer → Coalescer
step (chunk kind t) c = push kind t c
step flushes c = flush c

pub run : List Op → Coalescer → Coalescer
unfolding step
run [] c = c
run (op ∷ ops) c = run ops (step op c)

abbrev same_kind : Kind → Kind → Bool
same_kind text_kind text_kind = true
same_kind thinking_kind thinking_kind = true
same_kind text_kind thinking_kind = false
same_kind thinking_kind text_kind = false

-- The texts of a kind that were pushed, and those that were emitted.
abbrev pub pushed : Kind → List Op → Text
pushed kind [] = []
pushed kind (chunk k t ∷ ops) = (if same_kind kind k then t else []) ++ pushed kind ops
pushed kind (flushes ∷ ops) = pushed kind ops

abbrev pub texts : Kind → List Delta → Text
texts kind [] = []
texts kind (d ∷ ds) = (if same_kind kind d.kind then d.text else []) ++ texts kind ds

abbrev buffered : Kind → Coalescer → Text
buffered text_kind c = c.text
buffered thinking_kind c = c.thinking

abbrev pub seen : Kind → Coalescer → Text
seen kind c = texts kind c.emitted ++ buffered kind c

texts-append :
    (kind : Kind) (xs ys : List Delta) → texts kind (xs ++ ys) ≡ texts kind xs ++ texts kind ys
texts-append kind [] ys = refl
texts-append kind (d ∷ xs) ys =
    ap (λ (t : Text). (if same_kind kind d.kind then d.text else []) ++ t) (texts-append kind xs ys)
    ∙ sym (
        append_assoc (if same_kind kind d.kind then d.text else []) (texts kind xs) (texts kind ys))

texts-delta :
    (kind k : Kind) (t : Text) → texts kind (delta k t) ≡ (if same_kind kind k then t else [])
texts-delta kind k [] = ground arith
texts-delta kind k (c ∷ t) = ground (arith, append-nil t)

-- Flushing loses nothing, and changes no order within a kind.
flush-seen : (kind : Kind) (c : Coalescer) → seen kind (flush c) ≡ seen kind c
unfolding flush
flush-seen text_kind c =
    append-nil _
    ∙ texts-append text_kind c.emitted _
    ∙ ap (λ (t : Text). texts text_kind c.emitted ++ t)
        (texts-append text_kind (delta thinking_kind c.thinking) (delta text_kind c.text)
          ∙ ground (
            arith,
            texts-delta text_kind thinking_kind c.thinking,
            texts-delta text_kind text_kind c.text,
          ))
flush-seen thinking_kind c =
    append-nil _
    ∙ texts-append thinking_kind c.emitted _
    ∙ ap (λ (t : Text). texts thinking_kind c.emitted ++ t)
        (texts-append thinking_kind (delta thinking_kind c.thinking) (delta text_kind c.text)
          ∙ ground (
            arith,
            texts-delta thinking_kind thinking_kind c.thinking,
            texts-delta thinking_kind text_kind c.text,
            append-nil c.thinking,
          ))

add-seen :
    (kind k : Kind) (t : Text) (c : Coalescer)
    → seen kind (add k t c) ≡ seen kind c ++ (if same_kind kind k then t else [])
add-seen text_kind text_kind t c = sym (append_assoc (texts text_kind c.emitted) c.text t)
add-seen thinking_kind thinking_kind t c =
    sym (append_assoc (texts thinking_kind c.emitted) c.thinking t)
add-seen text_kind thinking_kind t c = sym (append-nil _)
add-seen thinking_kind text_kind t c = sym (append-nil _)

timer-seen : (kind : Kind) (c : Coalescer) → seen kind (record c { timer = true }) ≡ seen kind c
timer-seen text_kind c = refl
timer-seen thinking_kind c = refl

push-seen :
    (kind k : Kind) (t : Text) (c : Coalescer)
    → seen kind (push k t c) ≡ seen kind c ++ (if same_kind kind k then t else [])
unfolding push
push-seen kind k t c =
    if-holds (λ (d : Coalescer). seen kind d ≡ seen kind c ++ (if same_kind kind k then t else []))
      _ {s = flush (add k t c)} {t = record (add k t c) { timer = true }}
      (flush-seen kind (add k t c) ∙ add-seen kind k t c)
      (timer-seen kind (add k t c) ∙ add-seen kind k t c)

-- Over any chunks, ends of the timer and flushes, the texts of each kind that were emitted, with what
-- is still buffered, are the chunks of that kind in their order.
pub run-seen :
    (kind : Kind) (ops : List Op) (c : Coalescer)
    → seen kind (run ops c) ≡ seen kind c ++ pushed kind ops
unfolding run
run-seen kind [] c = sym (append-nil _)
run-seen kind (chunk k t ∷ ops) c =
    run-seen kind ops (push k t c)
    ∙ ap (λ (s : Text). s ++ pushed kind ops) (push-seen kind k t c)
    ∙ append_assoc (seen kind c) _ (pushed kind ops)
run-seen kind (flushes ∷ ops) c =
    run-seen kind ops (flush c) ∙ ap (λ (s : Text). s ++ pushed kind ops) (flush-seen kind c)

-- Nothing waits without a timer, and never as much as 512 characters.
pub record IsPrompt (c : Coalescer) : Type 0 where
  pub text_bounded : length c.text < coalesce_chars
  pub thinking_bounded : length c.thinking < coalesce_chars
  pub timed : c.timer ≡ false → (c.text ≡ []) × (c.thinking ≡ [])

step-IsPrompt : (op : Op) {c : Coalescer} → IsPrompt c → IsPrompt (step op c)
unfolding step push flush
step-IsPrompt (chunk text_kind t) r = ground arith
step-IsPrompt (chunk thinking_kind t) r = ground arith
step-IsPrompt flushes r = ground arith

-- However chunks, timers and flushes come: nothing waits without a timer that will flush it, and
-- less than 512 characters of each kind wait.
pub run-IsPrompt : (ops : List Op) {c : Coalescer} → IsPrompt c → IsPrompt (run ops c)
unfolding run
run-IsPrompt [] r = r
run-IsPrompt (op ∷ ops) r = run-IsPrompt ops (step-IsPrompt op r)
