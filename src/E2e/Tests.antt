-- ===== src/E2e/Tests.antt =====
-- Runs of the end-to-end window and of the opener on concrete frames.
use apgo.Prelude.{
  set, drop, ℕ, ◌*◌, true, false, List, [], ◌∷◌, ◌++◌, none, some, inr, replicate, ◌≡◌, refl, arith,
}
use apgo.Prelude.Maps.{lookup}
use apgo.Prelude.Text.{Text, text_eq, be_value}
use apgo.Window.{verdicts, promised}
use apgo.E2e.{e2e_window_bits, no_window, window_ok}
use apgo.E2e.Bitmap.{IsBitmap, e2e_window, e2e_verdicts-promised}
use apgo.E2e.Opener.{
  second, E2eHeader, E2eCrypto, RecvState, E2eCall, E2eStep, arrives, prunes, new_opener, parse_e2e,
  has_pq, is_stale, is_opened, opened, open_locked, derive_dh, derive_key, make_room, store_new,
  store, store_opened, open_derived, open_at, open_parsed, open_read, open_e2e, run, recv_key,
}
use apgo.E2e.Table.{IsReceiver}
use apgo.E2e.Bounded.{run-IsReceiver}
use apgo.E2e.Sealer.{SealCrypto, SealCall, SendState, new_sealer, pqid_of, seal_body, seal_all}
use apgo.E2e.Delivery.{CipherOpens, sealed_header, open_e2e-seal_body}
use apgo.E2e.Nonces.{AllDiffer, seal_all-AllDiffer}
use apgo.E2e.Once.{open_e2e-once}

abbrev flooded : List ℕ
flooded = 2000 ∷ 2001 ∷ 2000 ∷ 977 ∷ 978 ∷ 978 ∷ []

e2e_verdicts-promised_example :
    verdicts e2e_window no_window flooded ≡ promised e2e_window_bits [] flooded
e2e_verdicts-promised_example = e2e_verdicts-promised flooded

-- A cipher that opens everything, for a node of key 9...9.
abbrev open_crypto : E2eCrypto Unit
open_crypto = record {
  self_pub = replicate 32 9;
  dh = λ k. some k;
  derive = λ a b q s e p. some tt;
  open_aead = λ a n ad ct. some ct;
}

-- Counter `n`, with the hop counter `hop`, sealed at second 2000.
abbrev frame : ℕ → ℕ → Text
frame hop n =
    1 ∷ hop ∷ (replicate 72 7 ++ 0 ∷ 0 ∷ 7 ∷ 208 ∷ 0 ∷ 0 ∷ 0 ∷ 0 ∷ 0 ∷ 0 ∷ 0 ∷ n ∷ replicate 20 0)

abbrev call : ℕ → ℕ → ℕ → E2eCall
call hop n at = record {
  body = frame hop n;
  now = at * second;
  has_budget = true;
  pq_lookup = λ s i. none;
}

abbrev header : ℕ → ℕ → E2eHeader
header hop n = record {
  hop = hop;
  dst = replicate 4 7;
  src = replicate 4 7;
  sender = replicate 32 7;
  eph = replicate 32 7;
  ts = 2000;
  ctr = n;
  pqid = replicate 4 0;
}

frame_is_read : parse_e2e (frame 0 5) ≡ inr (header 0 5, replicate 16 0)
unfolding parse_e2e be_value
frame_is_read = refl

forwarded_is_read : parse_e2e (frame 3 5) ≡ inr (header 3 5, replicate 16 0)
unfolding parse_e2e be_value
forwarded_is_read = refl

is_delivered : is_opened (open_e2e open_crypto (call 0 5 2001) new_opener).1 ≡ true
unfolding parse_e2e be_value has_pq is_stale open_locked derive_dh derive_key make_room store_new
    store store_opened open_derived open_at open_parsed open_read text_eq window_ok lookup
is_delivered = refl

none_held : (k : ℕ) (st : RecvState Unit) → lookup k [] ≡ some st → IsBitmap st.win
unfolding lookup
none_held k st e = absurd (ground (arith, e))

nothing_held : IsReceiver {A = Unit} new_opener
nothing_held = record { unique = tt; bounded = omega arith; windows = none_held }

-- The frame again, by another relay, after another frame and a prune.
abbrev meanwhile : List E2eStep
meanwhile = arrives (call 0 6 2002) ∷ prunes (2003 * second) ∷ []

run-IsReceiver_example : IsReceiver (run open_crypto new_opener meanwhile)
run-IsReceiver_example = run-IsReceiver open_crypto meanwhile new_opener nothing_held

open_e2e-once_example :
    let t = (open_e2e open_crypto (call 0 5 2001) new_opener).0 in
    is_opened (open_e2e open_crypto (call 3 5 2004) (run open_crypto t meanwhile)).1 ≡ false
open_e2e-once_example =
    open_e2e-once open_crypto new_opener (call 0 5 2001) (call 3 5 2004) meanwhile (header 0 5)
      (header 3 5) (replicate 16 0) (replicate 16 0) nothing_held
      (λ st e. absurd (unfold lookup in ground (arith, e))) frame_is_read forwarded_is_read
      (record { key = unfold recv_key in refl; ts = refl; ctr = refl })
      (omega arith, (omega arith, omega arith)) is_delivered

-- A cipher that puts its tag in front, for a sender of key 7...7.
abbrev tagging : SealCrypto Unit
tagging = record {
  self_pub = replicate 32 7;
  base = λ k. some (k ++ replicate 31 0);
  dh = λ k p. some p;
  self_dh = λ p. some p;
  derive = λ a b q to e p. some tt;
  seal_aead = λ a n ad p. replicate 16 0 ++ p;
}

abbrev untagging : E2eCrypto Unit
untagging = record {
  self_pub = replicate 32 9;
  dh = λ k. some k;
  derive = λ a b q s e p. some tt;
  open_aead = λ a n ad ct. some (drop 16 ct);
}

abbrev sending : ℕ → ℕ → SealCall
sending key at = record {
  to = replicate 32 9;
  dst = 10 ∷ 0 ∷ 0 ∷ 9 ∷ [];
  src = 10 ∷ 0 ∷ 0 ∷ 7 ∷ [];
  pq = none;
  payload = 42 ∷ [];
  now = at * second;
  drawn = some (key ∷ []);
}

abbrev send_state : SendState Unit
send_state = record {
  eph = 1 ∷ replicate 31 0;
  ts = 2000;
  born = 2000 * second;
  aead = tt;
  ctr = 4;
}

abbrev arriving : E2eCall
arriving = record {
  body = set (seal_body tagging send_state (sending 1 2000) 5) 1 2;
  now = 2001 * second;
  has_budget = true;
  pq_lookup = λ s i. none;
}

tags_are_undone : CipherOpens tagging untagging
tags_are_undone = record { opens = λ a k ad p. refl; tagged = λ a k ad p. omega arith }

open_e2e-seal_body_example :
    (open_e2e untagging arriving new_opener).1
    ≡ opened (sealed_header tagging send_state (sending 1 2000) 5 2) (42 ∷ [])
open_e2e-seal_body_example =
    open_e2e-seal_body tagging send_state (sending 1 2000) 5
      (record {
        dst = refl;
        src = refl;
        sender = refl;
        eph = refl;
        pqid = unfold pqid_of in refl;
        ts = omega arith;
      })
      untagging arriving 2 new_opener (omega arith) tags_are_undone refl (unfold text_eq in refl)
      (unfold is_stale in refl)
      (inr (
        unfold lookup in refl,
        unfold derive_key derive_dh has_pq pqid_of text_eq in refl,
        omega arith,
      ))

-- Two frames under one key, one under the key after it.
abbrev three_calls : List SealCall
three_calls = sending 1 2000 ∷ sending 2 2060 ∷ sending 3 2130 ∷ []

seal_all-AllDiffer_example : AllDiffer tagging (seal_all tagging new_sealer three_calls)
seal_all-AllDiffer_example = seal_all-AllDiffer tagging three_calls (
  (λ e h g. absurd (ground (arith, h, g)), (λ e h g. absurd (ground (arith, h, g)), tt)),
  ((λ e h g. absurd (ground (arith, h, g)), tt), (tt, tt)),
)
