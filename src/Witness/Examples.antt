-- ===== src/Witness/Examples.antt =====
-- Rounds of one log against a database in memory: tests, and the theorems at concrete inputs.
use kt_witness.Common.{ℕ, ◌≡◌, inl, inr, refl, true, false, none, some, [], ◌∷◌, arith}
use kt_witness.Source.{a, Head, ForkError, value, Source}
use kt_witness.Store.Bolt.{by_origin}
use kt_witness.Store.Db.{Bytes, Record, Db}
use kt_witness.Store.Memory.{memory, empty_db}
use kt_witness.Store.Heads.{head_at, get, compare_and_set}
use kt_witness.Store.Forks.{is_forked}
use kt_witness.Witness.Types.{Witness, Round, Outcome, done, fails, fork, accuse, go_on}
use kt_witness.Witness.Process.{process, gate, record_names, conflict}
use kt_witness.Store.Seen.{record_seen_witness}
use kt_witness.Witness.History.{
  Advances, Advances-refl, Turn, IsShared, run_rounds, run_rounds-Advances,
}
use kt_witness.Witness.Safety.{signed_record, Justified, cosigned-Justified}
use kt_witness.Witness.Refusal.{IsRefused, fork-forever}
use kt_witness.Witness.Gate.{gate-accuse_iff, gate-go_on_iff}
use kt_witness.Witness.Progress.{cosigned_outcome, process-cosigns}

-- A note is the list of its bytes, and signing it appends one byte.
abbrev witness : Witness Bytes
witness = record {
  sign = λ n. elim n [ none ↦ none | some bytes ↦ some (1 ∷ bytes) ];
  max_sign_delay = 60;
  refresh_interval = 100;
  peers = none;
}

abbrev old_record : Record
old_record = record { origin = "log"; size = 5; hash = 77; cosigned = 4 ∷ []; witnessed_at = 10 }

abbrev witnessed : Db memory
witnessed = record empty_db { heads = memory.put empty_db.heads (by_origin "log") old_record }

abbrev head : ℕ → ℕ → Head Bytes
head size hash = record {
  origin = "log";
  size = size;
  hash = hash;
  signed = [];
  note = some (9 ∷ []);
  cosigners = "peer" ∷ [];
  fetched_at = 20;
}

-- A log that serves this head, and whose proofs all hold.
abbrev log : Head Bytes → Source Bytes
log h = record {
  origin = "log";
  tier = a;
  derived_head = false;
  fetch = λ _. value h;
  verify_consistency = λ _ _. value tt;
  refresh_now = none;
}

abbrev round : Round memory
round = record {
  now_seen = 21;
  now_refresh = 22;
  now_fresh = 23;
  now_record = 24;
  now_fork = 25;
  read_forked = true;
  read_head = true;
  write_seen = λ _. true;
  write_fork = true;
  write_head = true;
  during_fetch = λ db. db;
  during_verify = λ db. db;
}

abbrev grown : Outcome
grown =
    cosigned_outcome memory witness (log (head 8 99)) round witnessed (head 8 99) (1 ∷ 9 ∷ []) false

grows_and_signs : (process memory witness (log (head 8 99)) round witnessed).1 ≡ done grown
unfolding process is_forked get compare_and_set record_names record_seen_witness
grows_and_signs = refl

cosigned-Justified_example : Justified memory witness (log (head 8 99)) round witnessed grown
cosigned-Justified_example =
    cosigned-Justified memory witness (log (head 8 99)) round witnessed grown grows_and_signs refl

abbrev turn : Head Bytes → Turn memory Bytes
turn h = record { witness = witness; source = log h; round = round }

turn-IsShared : (h : Head Bytes) → IsShared memory (turn h)
turn-IsShared h = record { fetching = Advances-refl memory; verifying = Advances-refl memory }

run_rounds-Advances_example :
    Advances memory witnessed
      (run_rounds memory (turn (head 8 99) ∷ turn (head 6 1) ∷ []) witnessed)
run_rounds-Advances_example =
    run_rounds-Advances memory (turn (head 8 99) ∷ turn (head 6 1) ∷ []) witnessed
      (turn-IsShared (head 8 99), (turn-IsShared (head 6 1), tt))

-- The log serves another root at the witnessed size.
abbrev evidence_of_split : ForkError Bytes
evidence_of_split = conflict (log (head 5 78)) "split view" old_record (head 5 78)

split_is_fork :
    (process memory witness (log (head 5 78)) round witnessed).1 ≡ fails (fork evidence_of_split)
unfolding process is_forked get compare_and_set record_names record_seen_witness
split_is_fork = refl

fork-forever_example :
    IsRefused
      (process memory witness (log (head 5 77)) round (
        run_rounds memory
          (turn (head 8 99) ∷ [])
          (process memory witness (log (head 5 78)) round witnessed).0)).1
fork-forever_example =
    fork-forever memory witness (log (head 5 78)) round witnessed evidence_of_split
      (turn (head 8 99) ∷ []) witness (log (head 5 77)) round refl split_is_fork refl
      (turn-IsShared (head 8 99), tt)

gate-accuse_iff_example :
    (fe : ForkError Bytes) × (gate witness (log (head 5 78)) 22 (some old_record) (head 5 78)
      ≡ accuse fe)
gate-accuse_iff_example =
    (gate-accuse_iff witness (log (head 5 78)) 22 old_record (head 5 78)).1
      (refl, inl (refl, omega arith))

gate-go_on_iff_example :
    gate witness (log (head 8 99)) 22 (some old_record) (head 8 99) ≡ go_on false
gate-go_on_iff_example =
    (gate-go_on_iff witness (log (head 8 99)) 22 old_record (head 8 99) false).1
      (inl (omega arith, refl))

-- Another round poisons the log while this one waits for it.
abbrev poisoned_meanwhile : Round memory
poisoned_meanwhile = record round {
  during_fetch = λ db. record db { poisoned = memory.put db.poisoned (by_origin "log") 21 };
}

process-cosigns_example :
    ((process memory witness (log (head 8 99)) poisoned_meanwhile witnessed).1 ≡ done grown)
    × (head_at memory
          (process memory witness (log (head 8 99)) poisoned_meanwhile witnessed).0
          "log"
        ≡ some (
            signed_record memory witness
              (log (head 8 99))
              poisoned_meanwhile
              (head 8 99)
              (1 ∷ 9 ∷ [])))
process-cosigns_example =
    process-cosigns memory witness (log (head 8 99)) poisoned_meanwhile witnessed (some old_record)
      (head 8 99) (1 ∷ 9 ∷ []) false
      (record {
        unforked = refl;
        reads_forked = refl;
        reads_head = refl;
        writes_head = refl;
        witnessed = refl;
        fetched = refl;
        own_origin = refl;
        progress = inl (omega arith, refl, refl);
        fresh = inr (omega arith);
        signs = refl;
        head_kept_fetching = λ d. refl;
        head_kept_verifying = λ d. refl;
      })
