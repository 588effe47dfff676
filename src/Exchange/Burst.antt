-- ===== src/Exchange/Burst.antt =====
-- Several requests that wait at once: the thread of the device serves them in the order in which the
-- pages have put them into the queue.
use mathlib.Core.List.{append_assoc, append-nil}
use cloud_system.Base.{
  ℕ, zero, suc, inl, inr, Option-cases, ◌≡◌, refl, sym, ap, ◌∙◌, true, Option, none, some, List, [],
  ◌∷◌, ◌++◌, arith, ℤ, pos, length,
}
use cloud_system.Message.{Msg, with_type}
use cloud_system.Message.Kind.{type_of_admin}
use cloud_system.Message.Queue.{msgrcv, NoType, take_type-first}
use cloud_system.Server.Link.Find.{holds_fd}
use cloud_system.Server.World.{World, Received, end_of_file, got}
use cloud_system.Server.Handler.{State, Thread, handl_thread, steps}
use cloud_system.Server.Handler.Relay.{steps-relay}
use cloud_system.Cgi.Session.{request}
use cloud_system.Exchange.{IsReady, asked}

-- A request of a page, and what the device answers to it.
abbrev pub Call : Type 0 → Type 0
Call F = Msg F × Msg F

module _ {F : Type 0} where
  abbrev pub requests : List (Call F) → List (Msg F)
  requests [] = []
  requests ((m, a) ∷ cs) = asked m ∷ requests cs

  abbrev pub replies : List (Call F) → List (Msg F)
  replies [] = []
  replies ((m, a) ∷ cs) = with_type (pos 1042) a ∷ replies cs

  -- What is sent to the device, and what `recv` gives.
  abbrev pub told : ℤ → List (Call F) → List (ℤ × Msg F)
  told fd [] = []
  told fd ((m, a) ∷ cs) = (fd, asked m) ∷ told fd cs

  abbrev pub received : List (Call F) → List (Received F)
  received [] = []
  received ((m, a) ∷ cs) = end_of_file ∷ end_of_file ∷ got a ∷ received cs

  -- The messages that `msgrcv` takes from the queue, one page after the other.
  unfoldable pub take_all : ℕ → List (Msg F) → Option (List (Msg F) × List (Msg F))
  take_all zero q = some ([], q)
  take_all (suc n) q = elim (msgrcv (pos 1042) q) [
    | none ↦ none
    | some (m, rest) ↦ (elim (take_all n rest) [ none ↦ none | some (ms, r) ↦ some (m ∷ ms, r) ])
  ]

  abbrev go_on : List (Received F) → Option (World F × Thread F) → Option (World F × Thread F)
  go_on ys none = none
  go_on ys (some (v, u)) = steps v u ys

  steps-append :
      (xs ys : List (Received F)) (w : World F) (t : Thread F)
      → steps w t (xs ++ ys) ≡ go_on ys (steps w t xs)
  unfolding steps
  steps-append [] ys w t = refl
  steps-append (x ∷ xs) ys w t = elim (Option-cases (handl_thread w t x)) [
    | inl e ↦ rw (e, steps) refl
    | inr ((v, u), e) ↦ rw (e, steps) (steps-append xs ys v u)
  ]

  type_of_asked : (m : Msg F) → (asked m).msgtype ≡ pos 521
  unfolding request
  type_of_asked m = type_of_admin

  -- The thread waits for a request, and its device is in the list.
  pub record IsServing (w : World F) (t : Thread F) (n : ℕ) : Type 0 where
    pub waiting : t.state ≡ State.waiting
    pub receives : t.recvmsgtype ≡ pos 521
    pub sends : t.sendmsgtype ≡ pos 1042
    pub free : w.linksem ≡ suc n
    pub listed : holds_fd t.accept_fd w.devices ≡ true

  -- The world after the calls, with that queue.
  abbrev after : World F → ℤ → List (Msg F) → List (Call F) → World F
  after w fd queue cs = record w { queue = queue; outbox = w.outbox ++ told fd cs }

  serve :
      (cs : List (Call F)) (before done : List (Msg F)) (w : World F) (t : Thread F) (n : ℕ)
      → IsServing w t n
      → NoType 521 before
      → w.queue ≡ before ++ (requests cs ++ done)
      → (u : Thread F) × (steps w t (received cs)
          ≡ some (after w t.accept_fd (before ++ (done ++ replies cs)) cs, u))
        × IsServing w u n
  unfolding steps
  serve [] before done w t n serving free is =
      (t, ground (arith, is, append-nil done, append-nil w.outbox), serving)
  serve ((m, a) ∷ cs) before done w t n serving free is =
      let ran =
        steps-relay w t before (requests cs ++ done) (asked m) a n 520 1041 serving.waiting
          serving.receives serving.sends is free (type_of_asked m) serving.free serving.listed in
      let v = record w {
        queue = (before ++ (requests cs ++ done)) ++ with_type (pos 1042) a ∷ [];
        outbox = w.outbox ++ (t.accept_fd, asked m) ∷ [];
      } in
      let u = record t { state = State.waiting; buf = with_type (pos 1042) a } in
      let serving' : IsServing v u n = record {
        waiting = refl;
        receives = serving.receives;
        sends = serving.sends;
        free = serving.free;
        listed = serving.listed;
      } in
      let answer = with_type (pos 1042) a ∷ [] in
      let moved =
        append_assoc before (requests cs ++ done) answer
        ∙ ap (λ (q : List (Msg F)). before ++ q) (append_assoc (requests cs) done answer) in
      let (x, rest, again) = serve cs before (done ++ answer) v u n serving' free moved in
      let sent = told t.accept_fd cs in
      (
        x,
        steps-append (end_of_file ∷ end_of_file ∷ got a ∷ []) (received cs) w t
            ∙ ap (go_on (received cs)) ran
            ∙ rest
            ∙ ap
                (λ (q : List (Msg F)).
                  some (record w { queue = before ++ q; outbox = v.outbox ++ sent }, x))
                (append_assoc done answer (replies cs))
            ∙ ap
                (λ (o : List (ℤ × Msg F)).
                  some
                    (record w { queue = before ++ (done ++ replies ((m, a) ∷ cs)); outbox = o }, x))
                (append_assoc w.outbox ((t.accept_fd, asked m) ∷ []) sent),
        record {
          waiting = again.waiting;
          receives = again.receives;
          sends = again.sends;
          free = again.free;
          listed = again.listed;
        },
      )

  take_all-replies :
      (cs : List (Call F)) (before : List (Msg F))
      → NoType 1042 before
      → take_all (length cs) (before ++ replies cs) ≡ some (replies cs, before)
  unfolding take_all msgrcv
  take_all-replies [] before free = ap (λ (q : List (Msg F)). some ([], q)) (append-nil before)
  take_all-replies ((m, a) ∷ cs) before free =
      rw
        (
          take_type-first 1042 before (replies cs) (with_type (pos 1042) a) free refl,
          take_all-replies cs before free,
          take_all,
        )
        refl

-- The requests have been served and the answers taken.
pub record IsInOrder {F : Type 0} (w : World F) (t : Thread F) (n : ℕ) (cs : List (Call F))
    : Type 0 where
  pub thread : Thread F
  -- The device gets the requests in their order, and the answers stand in the queue in that order.
  pub serves :
      steps (record w { queue = w.queue ++ requests cs }) t (received cs)
      ≡ some (
        record w { queue = w.queue ++ replies cs; outbox = w.outbox ++ told t.accept_fd cs },
        thread,
      )
  pub again : IsReady w thread n
  -- The k-th page that takes a message takes the answer to the k-th request.
  pub takes : take_all (length cs) (w.queue ++ replies cs) ≡ some (replies cs, w.queue)

-- When the thread of the device "admin" is ready, and any number of requests wait behind the messages of
-- other types, the thread serves them all: the device gets them in the order in which the pages have
-- sent them, the answers stand in the queue in the same order and the other messages where they were,
-- and the thread is ready again; the pages that take their answers one after the other take them in
-- this order, and the queue is then as it was before the requests.
pub burst-IsInOrder :
    {F : Type 0} (w : World F) (t : Thread F) (n : ℕ) (cs : List (Call F))
    → IsReady w t n
    → IsInOrder w t n cs
burst-IsInOrder w t n cs ready =
    let serving : IsServing (record w { queue = w.queue ++ requests cs }) t n = record {
      waiting = ready.waiting;
      receives = ready.receives;
      sends = ready.sends;
      free = ready.free;
      listed = ready.listed;
    } in
    let behind = ap (λ (q : List (Msg _)). w.queue ++ q) (sym (append-nil (requests cs))) in
    let (u, ran, still) =
      serve cs w.queue [] (record w { queue = w.queue ++ requests cs }) t n serving ready.no_request
        behind in
    record {
      thread = u;
      serves = ran;
      again = record {
        waiting = still.waiting;
        receives = still.receives;
        sends = still.sends;
        free = still.free;
        listed = still.listed;
        no_request = ready.no_request;
        no_answer = ready.no_answer;
      };
      takes = take_all-replies cs w.queue ready.no_answer;
    }
