-- ===== src/Worker/Stream/Order.antt =====
-- The order in which `Stream` of offwork/worker/result.py delivers values.
use offwork.Base.{
  ℕ, suc, ◌+◌, ◌≤◌, String, ◌≡◌, ◌≢◌, ◌∙◌, refl, sym, ap, subst, true, Option, none, some, List, [],
  ◌∷◌, ◌++◌, arith, ==_refl, string_eq, length, length-append, Bool-cases, Option-cases, ◌⊎◌, inl,
  inr,
}
use offwork.Base.Dict.{lookup, lookup-insert}
use offwork.Worker.Broker.{Broker, buffer, slot, store_at, entries_from, dispatch}
use offwork.Worker.Broker.Frame.{Apart, TaskView, dispatch-view}
use offwork.Worker.Stream.{
  Terminal, Phase, polling, checking, draining, finished, raised, gap, unreadable, Client, deliver,
  after_batch, after_check, after_tail, drained, drain_terminal, new_client, resume, World, Event,
  produce, finish, ask, wake, happen, happen_all,
}
use mathlib.Core.List.{append_assoc, append-nil}
use mathlib.Core.Option.{some-injective}

-- No value is the empty text: `json.dumps` never makes it.
abbrev pub Texts : List String → Type 0
Texts [] = Unit
Texts (x ∷ xs) = (x ≢ "") × Texts xs

Texts-snoc : (xs : List String) (x : String) → Texts xs → x ≢ "" → Texts (xs ++ x ∷ [])
Texts-snoc [] x h k = (k, tt)
Texts-snoc (y ∷ ys) x (h, hs) k = (h, Texts-snoc ys x hs k)

Texts-suffix : (xs ys : List String) → Texts (xs ++ ys) → Texts ys
Texts-suffix [] ys h = h
Texts-suffix (x ∷ xs) ys (_, h) = Texts-suffix xs ys h

pub store_at-end : (xs : List String) (x : String) → store_at (length xs) x xs ≡ xs ++ x ∷ []
unfolding store_at
store_at-end [] x = refl
store_at-end (y ∷ ys) x = ap (λ zs. y ∷ zs) (store_at-end ys x)

-- The batch from `start` on, of values none of which is empty.
enumerate : ℕ → List String → List (ℕ × String)
enumerate i [] = []
enumerate i (x ∷ xs) = (i, x) ∷ enumerate (suc i) xs

entries_from-enumerate :
    (start i : ℕ) (xs : List String)
    → start ≤ i
    → Texts xs
    → entries_from start i xs ≡ enumerate i xs
unfolding entries_from enumerate
entries_from-enumerate start i [] h k = refl
entries_from-enumerate start i (x ∷ xs) h (k, ks) =
    ground (arith, entries_from-enumerate start (suc i) xs (omega (arith, h)) ks)

entries_from-skip :
    (start i : ℕ) (xs ys : List String)
    → i + length xs ≡ start
    → Texts ys
    → entries_from start i (xs ++ ys) ≡ enumerate start ys
unfolding entries_from
entries_from-skip start i [] ys h k =
    let e : start ≡ i = omega (arith, h) in rw e (entries_from-enumerate i i ys (omega arith) k)
entries_from-skip start i (x ∷ xs) ys h k =
    ground (arith, entries_from-skip start (suc i) xs ys (omega (arith, h)) k)

-- The client after it has taken `xs`.
took : ℕ → List String → Client → Client
took n xs c = record c { next_seq = n; delivered = xs }

took_eq : {m n : ℕ} {xs ys : List String} (c : Client) → m ≡ n → xs ≡ ys → took m xs c ≡ took n ys c
took_eq c p q i = took (p i) (q i) c

deliver-enumerate :
    (xs : List String) (c : Client)
    → deliver (enumerate c.next_seq xs) c ≡ took (c.next_seq + length xs) (c.delivered ++ xs) c
unfolding deliver enumerate took
deliver-enumerate [] c = took_eq c (omega arith) (sym (append-nil c.delivered))
deliver-enumerate (x ∷ xs) c =
    let rest = deliver-enumerate xs (took (suc c.next_seq) (c.delivered ++ x ∷ []) c) in
    let first : deliver (enumerate c.next_seq (x ∷ xs)) c
        ≡ deliver (enumerate (suc c.next_seq) xs)
            (took (suc c.next_seq) (c.delivered ++ x ∷ []) c) =
      ground arith in
    first ∙ rest ∙ took_eq c (omega arith) (append_assoc c.delivered (x ∷ []) xs)

-- What holds in every world: the buffer holds what was sent, and the client's loop has delivered a
-- first part of it, without a gap.
abbrev pub NoGap : Phase → Type 0
NoGap (gap _ _) = ⊥
NoGap _ = Unit

-- Everything is delivered up to the number that the envelope names.
abbrev pub FinishedAt : Phase → Client → Type 0
FinishedAt finished c =
    (t : Terminal) × (c.envelope ≡ some t) × (drained c.next_seq t.stream_yields ≡ true)
FinishedAt _ c = Unit

abbrev pub Finished : Client → Type 0
Finished c = FinishedAt c.phase c

pub record Ordered (task_id : String) (w : World) : Type 0 where
  pub seq_counts : w.seq ≡ length w.sent
  pub buffered : buffer (lookup task_id w.broker.buffers) ≡ w.sent
  pub texts : Texts w.sent
  pub rest : List String
  pub in_order : w.sent ≡ w.client.delivered ++ rest
  pub counted : w.client.next_seq ≡ length w.client.delivered
  pub no_gap : NoGap w.client.phase
  pub complete : Finished w.client

-- What may happen: the task yields texts, and the other requests are about other tasks.
abbrev pub Allowed : String → Event → Type 0
Allowed task_id (produce value) = value ≢ ""
Allowed task_id (finish raw) = Unit
Allowed task_id (ask request) = Apart task_id request
Allowed task_id wake = Unit

abbrev pub AllAllowed : String → List (Event × ℕ) → Type 0
AllAllowed task_id [] = Unit
AllAllowed task_id ((event, _) ∷ rest) = Allowed task_id event × AllAllowed task_id rest

polled :
    (task_id : String) (w : World) (o : Ordered task_id w)
    → deliver (entries_from w.client.next_seq 0 (buffer (lookup task_id w.broker.buffers))) w.client
      ≡ took (length w.sent) w.sent w.client
polled task_id w o =
    let skip =
      entries_from-skip w.client.next_seq 0 w.client.delivered o.rest (omega (arith, o.counted))
        (Texts-suffix w.client.delivered o.rest (subst Texts o.in_order o.texts)) in
    rw (o.buffered, o.in_order, skip)
      (deliver-enumerate o.rest w.client
        ∙ took_eq w.client (omega (arith, o.counted, length-append w.client.delivered o.rest)) refl)

-- The client holds `xs` and nothing is wrong.
Sound : List String → Client → Type 0
Sound xs c = (c.next_seq ≡ length xs) × (c.delivered ≡ xs) × NoGap c.phase × Finished c

after_batch-Sound :
    (batch : List (ℕ × String)) (xs : List String) (c : Client)
    → c.phase ≡ polling
    → Sound xs c
    → Sound xs (after_batch batch c)
unfolding Sound
after_batch-Sound (_ ∷ _) xs c h k = k
after_batch-Sound [] xs c h (counted, same, _, _) = elim (Option-cases c.envelope) [
  | inl e ↦ rw e (counted, same, tt, tt)
  | inr (t, e) ↦ rw e (counted, same, tt, tt)
]

after_check-Sound :
    (from_json : String → Option Terminal) (raw : Option String) (xs : List String) (c : Client)
    → Sound xs c
    → Sound xs (after_check from_json raw c)
unfolding Sound
after_check-Sound from_json none xs c (counted, same, _, _) = (counted, same, tt, tt)
after_check-Sound from_json (some raw) xs c (counted, same, _, _) =
    elim (Option-cases (from_json raw)) [
      | inl e ↦ rw (e, after_check) (counted, same, tt, tt)
      | inr (t, e) ↦ rw (e, after_check) (counted, same, tt, tt)
    ]

drain-cases : (t : Terminal) → (drain_terminal t ≡ finished) ⊎ (drain_terminal t ≡ raised t.status)
drain-cases t = ground arith

after_tail-Sound :
    (batch : List (ℕ × String)) (xs : List String) (c : Client)
    → Sound xs c
    → Sound xs (after_tail batch c)
unfolding Sound
after_tail-Sound (_ ∷ _) xs c (counted, same, _, _) = (counted, same, tt, tt)
after_tail-Sound [] xs c (counted, same, no_gap, done) = elim (Option-cases c.envelope) [
  | inl e ↦ rw e (counted, same, tt, tt)
  | inr (t, e) ↦ elim (Bool-cases (drained c.next_seq t.stream_yields)) [
    | inl d ↦ elim (drain-cases t) [
      | inl ends ↦ rw (e, d, ends) (counted, same, tt, (t, refl, d))
      | inr fails ↦ rw (e, d, fails) (counted, same, tt, tt)
    ]
    | inr d ↦ rw (e, d) (counted, same, tt, tt)
  ]
]

resume-buffers :
    (from_json : String → Option Terminal) (task_id : String) (now : ℕ) (b : Broker) (c : Client)
    → (resume from_json task_id now b c).0.buffers ≡ b.buffers
unfolding resume dispatch
resume-buffers from_json task_id now b c = go c.phase refl
  where
    go : (p : Phase) → c.phase ≡ p → (resume from_json task_id now b c).0.buffers ≡ b.buffers
    go polling e = rw e refl
    go checking e = rw e refl
    go draining e = rw e refl
    go finished e = rw e refl
    go (raised _) e = rw e refl
    go (gap _ _) e = rw e refl
    go unreadable e = rw e refl

Sound-at :
    (task_id : String) (w : World) (o : Ordered task_id w) → Sound w.client.delivered w.client
unfolding Sound
Sound-at task_id w o = (o.counted, refl, o.no_gap, o.complete)

poll-Sound :
    (task_id : String) (w : World)
    → Ordered task_id w
    → w.client.phase ≡ polling
    → let batch = entries_from w.client.next_seq 0 (buffer (lookup task_id w.broker.buffers)) in
      Sound w.sent (after_batch batch (deliver batch w.client))
unfolding Sound took
poll-Sound task_id w o e =
    let batch = entries_from w.client.next_seq 0 (buffer (lookup task_id w.broker.buffers)) in
    rw (polled task_id w o) (
      after_batch-Sound batch w.sent (took (length w.sent) w.sent w.client) e
        (refl, refl, rw e tt, rw e tt))

-- A client's step from a world in order delivers nothing, or all that was sent.
resume-Sound :
    (from_json : String → Option Terminal) (task_id : String) (now : ℕ) (w : World)
    → Ordered task_id w
    → Sound w.client.delivered (resume from_json task_id now w.broker w.client).1
      ⊎ Sound w.sent (resume from_json task_id now w.broker w.client).1
unfolding resume dispatch
resume-Sound from_json task_id now w o = go w.client.phase refl
  where
    here : Sound w.client.delivered w.client
    here = Sound-at task_id w o

    go :
        (p : Phase)
        → w.client.phase ≡ p
        → Sound w.client.delivered (resume from_json task_id now w.broker w.client).1
          ⊎ Sound w.sent (resume from_json task_id now w.broker w.client).1
    go polling e = inr (rw (e, resume) (poll-Sound task_id w o e))
    go checking e = inl (
        rw (e, resume)
          (after_check-Sound from_json (slot (lookup task_id w.broker.results)) w.client.delivered
            w.client here))
    go draining e = inl (
        rw (e, resume)
          (after_tail-Sound
            (entries_from w.client.next_seq 0 (buffer (lookup task_id w.broker.buffers)))
            w.client.delivered w.client here))
    go finished e = inl (rw (e, resume) here)
    go (raised _) e = inl (rw (e, resume) here)
    go (gap _ _) e = inl (rw (e, resume) here)
    go unreadable e = inl (rw (e, resume) here)

-- The record of `Ordered` from the client's part of it.
Sound-Ordered :
    (task_id : String) (w : World) (xs rest : List String)
    → w.seq ≡ length w.sent
    → buffer (lookup task_id w.broker.buffers) ≡ w.sent
    → Texts w.sent
    → w.sent ≡ xs ++ rest
    → Sound xs w.client
    → Ordered task_id w
unfolding Sound
Sound-Ordered task_id w xs rest seq_counts buffered texts in_order
      (counted, same, no_gap, complete) =
    record {
      seq_counts = seq_counts;
      buffered = buffered;
      texts = texts;
      rest = rest;
      in_order = rw same in_order;
      counted = rw same counted;
      no_gap = no_gap;
      complete = complete;
    }

happen-Ordered :
    (from_json : String → Option Terminal) (task_id : String) (now : ℕ) (event : Event) (w : World)
    → Allowed task_id event
    → Ordered task_id w
    → Ordered task_id (happen from_json task_id now event w)
unfolding happen dispatch
happen-Ordered from_json task_id now (produce value) w h o =
    Sound-Ordered task_id (happen from_json task_id now (produce value) w) w.client.delivered
      (o.rest ++ value ∷ []) (omega (arith, o.seq_counts, length-append w.sent (value ∷ [])))
      (simp (lookup-insert, ==_refl, o.buffered, o.seq_counts, store_at-end w.sent value) refl)
      (Texts-snoc w.sent value o.texts h)
      (rw o.in_order (append_assoc w.client.delivered o.rest (value ∷ []))) (Sound-at task_id w o)
happen-Ordered from_json task_id now (finish raw) w h o =
    Sound-Ordered task_id (happen from_json task_id now (finish raw) w) w.client.delivered o.rest
      o.seq_counts o.buffered o.texts o.in_order (Sound-at task_id w o)
happen-Ordered from_json task_id now (ask request) w h o =
    Sound-Ordered task_id (happen from_json task_id now (ask request) w) w.client.delivered o.rest
      o.seq_counts
      (ap (λ v. buffer (TaskView.yielded v)) (dispatch-view request now w.broker task_id h)
        ∙ o.buffered)
      o.texts o.in_order (Sound-at task_id w o)
happen-Ordered from_json task_id now wake w h o =
    let kept =
      ap (λ d. buffer (lookup task_id d)) (resume-buffers from_json task_id now w.broker w.client)
      ∙ o.buffered in
    elim (resume-Sound from_json task_id now w o) [
      | inl k ↦
          Sound-Ordered task_id (happen from_json task_id now wake w) w.client.delivered o.rest
            o.seq_counts kept o.texts o.in_order k
      | inr k ↦
          Sound-Ordered task_id (happen from_json task_id now wake w) w.sent [] o.seq_counts kept
            o.texts (sym (append-nil w.sent)) k
    ]

-- From a world in order, under any interleaving of the yields of the task, none of which is the empty
-- text, its end, the client's steps and requests about other tasks, the client has delivered a first
-- part of what was sent, in order; it never meets a gap; and it finishes only when it has delivered
-- as many values as the envelope names, if it names a number. A client whose first step comes after
-- some yields begins with the first value all the same.
pub stream_in_order :
    (from_json : String → Option Terminal) (task_id : String) (events : List (Event × ℕ))
    (w : World)
    → AllAllowed task_id events
    → Ordered task_id w
    → Ordered task_id (happen_all from_json task_id events w)
unfolding happen_all
stream_in_order from_json task_id [] w h o = o
stream_in_order from_json task_id ((event, now) ∷ rest) w (h, hs) o =
    stream_in_order from_json task_id rest (happen from_json task_id now event w) hs
      (happen-Ordered from_json task_id now event w h o)

-- A poll catches up: after it, a client in a world in order has delivered all that was sent so far,
-- from the first value on, also if this is its first poll.
pub poll_catches_up :
    (from_json : String → Option Terminal) (task_id : String) (now : ℕ) (w : World)
    → Ordered task_id w
    → w.client.phase ≡ polling
    → (happen from_json task_id now wake w).client.delivered ≡ w.sent
unfolding happen resume dispatch Sound
poll_catches_up from_json task_id now w o e = rw (e, resume) (poll-Sound task_id w o e).1

enough_of_drained : (next_seq final : ℕ) → drained next_seq (some final) ≡ true → final ≤ next_seq
enough_of_drained next_seq final h = ground arith

append-length-nil : (xs rest : List String) → length (xs ++ rest) ≤ length xs → rest ≡ []
append-length-nil xs [] h = refl
append-length-nil xs (x ∷ rest) h = absurd (omega (arith, h, length-append xs (x ∷ rest)))

delivered_all :
    (task_id : String) (w : World) (t : Terminal)
    → Ordered task_id w
    → w.client.phase ≡ finished
    → w.client.envelope ≡ some t
    → t.stream_yields ≡ some (length w.sent)
    → w.client.delivered ≡ w.sent
delivered_all task_id w t o e h final =
    let (t', held, enough) = subst (λ p. FinishedAt p w.client) e o.complete in
    let same : t' ≡ t = some-injective t' t (sym held ∙ h) in
    let bound : length w.sent ≤ w.client.next_seq =
      enough_of_drained w.client.next_seq (length w.sent) (
        subst (λ y. drained w.client.next_seq y ≡ true)
          (ap (λ (u : Terminal). u.stream_yields) same ∙ final) enough) in
    let nothing =
      append-length-nil w.client.delivered o.rest
        (omega (arith, bound, o.counted, ap length o.in_order)) in
    sym (o.in_order ∙ ap (λ r. w.client.delivered ++ r) nothing ∙ append-nil w.client.delivered)

-- A client that has not started, and a task that has not yielded yet.
abbrev pub fresh_world : Broker → World
fresh_world b = record { broker = b; seq = 0; sent = []; client = new_client }

fresh-Ordered :
    (task_id : String) (b : Broker)
    → buffer (lookup task_id b.buffers) ≡ []
    → Ordered task_id (fresh_world b)
fresh-Ordered task_id b clear = record {
  seq_counts = refl;
  buffered = clear;
  texts = tt;
  rest = [];
  in_order = refl;
  counted = refl;
  no_gap = tt;
  complete = tt;
}

-- A new client of a task whose buffer is empty, under any interleaving of the yields of the task,
-- none of which is the empty text, its end, the client's steps and requests about other tasks: if its
-- loop then has finished, on an envelope that names the number of values sent, it has delivered every
-- one of them, in order.
pub finished_is_complete :
    (from_json : String → Option Terminal) (task_id : String) (events : List (Event × ℕ))
    (b : Broker) (t : Terminal)
    → AllAllowed task_id events
    → buffer (lookup task_id b.buffers) ≡ []
    → (happen_all from_json task_id events (fresh_world b)).client.phase ≡ finished
    → (happen_all from_json task_id events (fresh_world b)).client.envelope ≡ some t
    → t.stream_yields ≡ some (length (happen_all from_json task_id events (fresh_world b)).sent)
    → (happen_all from_json task_id events (fresh_world b)).client.delivered
      ≡ (happen_all from_json task_id events (fresh_world b)).sent
finished_is_complete from_json task_id events b t allowed clear =
    delivered_all task_id (happen_all from_json task_id events (fresh_world b)) t (
      stream_in_order from_json task_id events (fresh_world b) allowed
        (fresh-Ordered task_id b clear))
