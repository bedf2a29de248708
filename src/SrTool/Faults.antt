-- ===== src/SrTool/Faults.antt =====
-- What the loop makes of a call of SSL_write that returns -1.
use qt_asio_net_disk.Base.{
  ℕ, ◌+◌, ◌-◌, ◌%◌, ◌^◌, ◌<◌, ◌≡◌, List, [], ◌∷◌, ◌++◌, Bool, arith, ap, ◌∙◌, append-nil, take,
  drop, lt→ltb,
}
use qt_asio_net_disk.SrTool.{Write, before, took, failed, send_loop}
use qt_asio_net_disk.SrTool.Laws.{complete, send_loop-end}

module _ (buf : List ℕ) (target sended : ℕ) where
  took_next :
      (n next : ℕ) (script : List Write)
      → sended < target
      → (sended + n) % 2 ^ 64 ≡ next
      → send_loop buf target sended (took n ∷ script)
        ≡ before (take n (drop sended buf)) (send_loop buf target next script)
  unfolding send_loop
  took_next n next script h e = rw (lt→ltb sended target h, e)

  failed_next :
      (next : ℕ) (again : Bool) (script : List Write)
      → sended < target
      → (sended + (2 ^ 64 - 1)) % 2 ^ 64 ≡ next
      → send_loop buf target sended (failed again ∷ script) ≡ send_loop buf target next script
  unfolding send_loop
  failed_next next again script h e = rw (lt→ltb sended target h, e)

-- A call that fails behind `k + 1` bytes is not noticed: the last of them is sent again and then the
-- others, one byte more than the message has, and the loop returns as after a success. A first
-- call that fails ends the loop with nothing sent, and 2^64 - 1 is returned. Both hold whatever
-- SSL_get_error says.
pub send_loop-failed :
    (buf : List ℕ) (target k : ℕ) (again : Bool) (after : List Write)
    → k + 1 < target
    → target < 2 ^ 64 - 1
    → (send_loop buf target 0 (took (k + 1) ∷ failed again ∷ took (target - k) ∷ after)
        ≡ complete (take (k + 1) buf ++ take (target - k) (drop k buf)) target after)
      × (send_loop buf target 0 (failed again ∷ after) ≡ complete [] (2 ^ 64 - 1) after)
send_loop-failed buf target k again after inside small =
    let first : (0 + (k + 1)) % 2 ^ 64 ≡ k + 1 = omega arith in
    let back : (k + 1 + (2 ^ 64 - 1)) % 2 ^ 64 ≡ k = omega arith in
    let last : (k + (target - k)) % 2 ^ 64 ≡ target = omega arith in
    let huge : (0 + (2 ^ 64 - 1)) % 2 ^ 64 ≡ 2 ^ 64 - 1 = omega arith in
    let none_sent : send_loop buf target (2 ^ 64 - 1) after ≡ complete [] (2 ^ 64 - 1) after =
      send_loop-end buf target (2 ^ 64 - 1) after (omega arith) in
    (
      took_next buf target 0 (k + 1) (k + 1) (failed again ∷ took (target - k) ∷ after)
            (omega arith) first
          ∙ ap (before (take (k + 1) buf)) (
              failed_next buf target (k + 1) k again (took (target - k) ∷ after) (omega arith) back
              ∙ took_next buf target k (target - k) target after (omega arith) last
              ∙ ap (before (take (target - k) (drop k buf)))
                  (send_loop-end buf target target after (omega arith)))
          ∙ ap (λ t. complete (take (k + 1) buf ++ t) target after)
              (append-nil (take (target - k) (drop k buf))),
      failed_next buf target 0 (2 ^ 64 - 1) again after (omega arith) huge ∙ none_sent,
    )
