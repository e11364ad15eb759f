-- ===== src/Cbind/Program.antt =====
-- The programs of cbind/examples: actions on what the program did and on its global variables
-- that return a value or leave the process by `exit`. The wait loop is that of common.h.
use nim_libp2p.Common.{
  ℕ, zero, suc, ◌+◌, Bool, true, false, List, [], ◌∷◌, Option, none, some, leb, take, if◌then◌else◌,
}
use nim_libp2p.Cbind.Binding.{
  Bytes, Call, Reply, Answer, Event, incoming_stream, pubsub_message, Entry, asked, destroyed,
  waited, reported, Binding, codes,
}

-- The global variables of echo.c, relay.c and gossipsub.c that a listener writes.
pub record Globals : Type 0 where
  pub have_stream : Bool
  pub stream_id : ℕ
  pub got : Bool
  pub received : Bytes

abbrev pub zeroed : Globals
zeroed = record { have_stream = false; stream_id = 0; got = false; received = [] }

pub record World : Type 0 where
  pub log : List Entry
  pub globals : Globals

abbrev pub initial : World
initial = record { log = []; globals = zeroed }

pub data Outcome (A : Type 0) : Type 0 where
  returned : A → World → Outcome A
  exited : ℕ → World → Outcome A

abbrev pub Program : Type 0 → Type 0
Program A = Binding → World → Outcome A

infixl 5 ◌>>=◌ ◌>>◌
unfoldable pub ◌>>=◌ : {A B : Type 0} → Program A → (A → Program B) → Program B
(m >>= f) b w = elim (m b w) [ returned a v ↦ f a b v | exited c v ↦ exited c v ]

abbrev pub ◌>>◌ : {A B : Type 0} → Program A → Program B → Program B
m >> n = m >>= λ _. n

unfoldable pub pure : {A : Type 0} → A → Program A
pure a b w = returned a w

unfoldable pub exit : {A : Type 0} → ℕ → Program A
exit c b w = exited c w

unfoldable pub gets : {A : Type 0} → (Globals → A) → Program A
gets f b w = returned (f w.globals) w

unfoldable pub modify : (Globals → Globals) → Program Unit
modify f b w = returned tt (record { log = w.log; globals = f w.globals })

unfoldable pub note : Entry → Program Unit
note e b w = returned tt (record { log = e ∷ w.log; globals = w.globals })

-- `onIncomingStream` of echo.c and relay.c.
unfoldable pub on_incoming_stream : ℕ → Globals → Globals
on_incoming_stream id g = record {
  have_stream = true;
  stream_id = id;
  got = g.got;
  received = g.received;
}

-- The part of `received` that the NUL of `onPubsubMessage` leaves in place of the old text: a NULL
-- payload writes nothing before it.
unfoldable pub on_pubsub_message : Option Bytes → Globals → Globals
on_pubsub_message payload g = record {
  have_stream = g.have_stream;
  stream_id = g.stream_id;
  got = true;
  received = elim payload [ none ↦ [] | some data_bytes ↦ take 511 data_bytes ];
}

unfoldable pub deliver : Option Event → Globals → Globals
deliver none g = g
deliver (some (incoming_stream id)) g = on_incoming_stream id g
deliver (some (pubsub_message payload)) g = on_pubsub_message payload g

-- `sleep_ms(10)` number `i` of a wait: the listeners may run meanwhile.
unfoldable pub sleep : ℕ → Binding → World → World
sleep i b w = record { log = w.log; globals = deliver ((b.event) w.log i) w.globals }

-- The loop of `wait_done`: `done i` is what a load gives after `i` sleeps. It ends with the number
-- of sleeps.
unfoldable pub poll : ℕ → ℕ → (ℕ → Globals → Bool) → Binding → World → ℕ × World
poll zero i done b w = (i, w)
poll (suc n) i done b w =
    let rest = poll n (i + 1) done b (sleep i b w) in if done i w.globals then (i, w) else rest

-- `wait_done`, which ends the process when the flag is not set after the loop. The line that it prints
-- before is left out.
unfoldable pub wait_done : (ℕ → Globals → Bool) → Program Unit
wait_done done b w =
    let (i, v) = poll 1000 0 done b w in if done i v.globals then returned tt v else exited 1 v

-- A callback stores its flag at a time of the answer.
unfoldable pub fired : {R : Type 0} → Answer R → ℕ → Globals → Bool
fired a i _ = elim a.time [ none ↦ false | some t ↦ leb t i ]

-- A request and the wait for its callback, which gets the answer.
unfoldable pub call : (c : Call) → Program (Answer (Reply c))
call c b w = let a = (b.answer) w.log c in (do wait_done (fired a); note (asked c a); pure a) b w

-- A wait for a listener.
unfoldable pub wait_flag : (Globals → Bool) → Program Unit
wait_flag flag = do wait_done (λ _. flag); note waited

-- `sleep_ms` outside a wait: a listener may run meanwhile.
unfoldable pub pause : Program Unit
pause b w = note waited b (sleep 0 b w)

-- `fprintf(stderr, "%s: %s\n", label, err[0] ? err : "unknown")`.
unfoldable pub report : Bytes → Bytes → Program Unit
report label err = note (reported label (elim err [ [] ↦ codes "unknown" | x ∷ xs ↦ x ∷ xs ]))

unfoldable pub destroy : Option ℕ → Program Unit
destroy h = note (destroyed h)

-- `if (!m) return stop;` or, with the status of the cleanup, `if (!m) goto cleanup;`.
unfoldable pub on_true : {B : Type 0} → Program Bool → B → Program B → Program B
on_true m stop rest = do ok ← m; if ok then rest else pure stop

-- The same of a call that leaves a result.
unfoldable pub on_some : {A B : Type 0} → Program (Option A) → B → (A → Program B) → Program B
on_some m stop rest = do r ← m; elim r [ none ↦ pure stop | some a ↦ rest a ]

-- The short circuit of `&&`, or of `||` on the negations.
unfoldable pub both : Program Bool → Program Bool → Program Bool
both m n = on_true m false n

-- `if (!a || !b) stop` on two contexts that the rest reads.
unfoldable pub with_two :
    {B : Type 0} → Option ℕ → Option ℕ → (ℕ → ℕ → Program B) → Program B → Program B
with_two none b rest stop = stop
with_two (some a) none rest stop = stop
with_two (some a) (some b) rest stop = rest a b

-- The same on three.
unfoldable pub with_three :
    {B : Type 0} → Option ℕ → Option ℕ → Option ℕ → (ℕ → ℕ → ℕ → Program B) → Program B → Program B
with_three none b c rest stop = stop
with_three (some a) none c rest stop = stop
with_three (some a) (some b) none rest stop = stop
with_three (some a) (some b) (some c) rest stop = rest a b c
