-- ===== src/Tests/Worker.antt =====
-- A consumer over a stream that is a list, with jobs that always fail.
use company_tax_and_accounti.Base.{
  ℕ, ◌+◌, Bool, true, false, Option, none, some, String, List, [], ◌∷◌, ◌++◌, ◌≡◌, refl, arith,
  length,
}
use company_tax_and_accounti.Worker.{Message, Broker, Consumer, idle, run}
use company_tax_and_accounti.Worker.Draining.{run-drains}

abbrev next_of : List Message → Option (Message × List Message)
next_of [] = none
next_of (m ∷ ms) = some (m, ms)

next_of-none : (s : List Message) → next_of s ≡ none → s ≡ []
next_of-none [] h = refl
next_of-none (m ∷ ms) h = absurd (cc)

next_of-some : (s t : List Message) (m : Message) → next_of s ≡ some (m, t) → s ≡ m ∷ t
next_of-some [] t m h = absurd (cc)
next_of-some (x ∷ s) t m h = ground arith

abbrev queue : Broker
queue = record {
  Stream = List Message;
  xadd = λ s m. s ++ (m ∷ []);
  xreadgroup = next_of;
  waiting = λ s. s;
  waiting-xadd = λ s m. refl;
  xreadgroup-waiting = next_of-none;
  xreadgroup-next = next_of-some;
}

abbrev is_json : String → Bool
is_json s = true

abbrev fails : ℕ → String → Bool × ℕ
fails tries payload = (false, tries + 1)

abbrev job : Message
job = record { payload = some "{}"; deliveries = none }

abbrev start : Consumer queue ℕ is_json fails
start = record { stream = job ∷ job ∷ []; completed = []; dead = []; slept = 0; world = 0 }

run-drains_example :
    (k : Consumer queue ℕ is_json fails) × (run queue ℕ is_json fails 10 start ≡ idle k)
    × (queue.waiting k.stream ≡ [])
    × (length k.completed + length k.dead ≡ 2)
run-drains_example =
    run-drains queue ℕ is_json fails 10 start (refl, (refl, tt)) (ground arith, (ground arith, tt))
      (ground arith)
