-- ===== src/UpDownCon/Laws.antt =====
-- A connection under any interleaving of the threads that use it.
use qt_asio_net_disk.Base.{
  ℕ, ◌+◌, ◌-◌, ◌%◌, ◌^◌, ◌≤◌, ◌<◌, ◌≡◌, refl, ap, ◌∙◌, List, [], ◌∷◌, ◌++◌, none, Bool, true, false,
  arith, leb, ltb, if◌then◌else◌, append-nil, Bool-cases, inl, inr, leb→le, le→ltb, le→leb,
}
use qt_asio_net_disk.Protocol.{UserInfo}
use qt_asio_net_disk.UpDownCon.{
  one_less, UpDownCon, UdTask, UdStatus, closed, Effect, init, copy_task, add_handle_size,
  less_equal_add, set_status, cmp_exchange, close, reserve,
}

-- What a thread calls.
pub data Call : Type 0 where
  inits : UserInfo → UdTask → Call
  copies : UdTask → Call
  adds : ℕ → Call
  reserves : ℕ → ℕ → Call
  sets : UdStatus → Call
  exchanges : UdStatus → UdStatus → Call
  closes : Bool → Call

unfoldable pub step : UpDownCon → Call → UpDownCon × List Effect
step c (inits info task) = (init c info task, [])
step c (copies task) = (copy_task c task, [])
step c (adds size) = (add_handle_size c size, [])
step c (reserves num size) = ((less_equal_add c num size).0, [])
step c (sets status) = (set_status c status, [])
step c (exchanges expected desired) = ((cmp_exchange c expected desired).0, [])
step c (closes half) = close c half

unfoldable pub run : UpDownCon → List Call → UpDownCon
run c [] = c
run c (call ∷ calls) = run (step c call).0 calls

unfoldable pub all_effects : UpDownCon → List Call → List Effect
all_effects c [] = []
all_effects c (call ∷ calls) = (step c call).1 ++ all_effects (step c call).0 calls

-- What no call changes on a closed connection.
abbrev Stays : UpDownCon → UpDownCon → Type 0
Stays c d = (d.is_close ≡ true) × (d.user_count ≡ c.user_count) × (d.client_ssl ≡ c.client_ssl)

step_closed :
    (c : UpDownCon) (call : Call)
    → c.is_close ≡ true
    → ((step c call).1 ≡ []) × Stays c (step c call).0
unfolding step init copy_task add_handle_size less_equal_add set_status cmp_exchange close
step_closed c (inits info task) h = (refl, (h, refl, refl))
step_closed c (copies task) h = (refl, (h, refl, refl))
step_closed c (adds size) h = (refl, (h, refl, refl))
step_closed c (reserves num size) h = ground arith
step_closed c (sets status) h = (refl, (h, refl, refl))
step_closed c (exchanges expected desired) h = ground arith
step_closed c (closes half) h = ground arith

run_closed :
    (calls : List Call) (c : UpDownCon)
    → c.is_close ≡ true
    → (all_effects c calls ≡ []) × Stays c (run c calls)
unfolding run all_effects
run_closed [] c h = (refl, (h, refl, refl))
run_closed (call ∷ calls) c h =
    let (nothing, first) = step_closed c call h in
    let (silent, rest) = run_closed calls (step c call).0 first.0 in
    (
      ap (λ e. e ++ all_effects (step c call).0 calls) nothing ∙ silent,
      (rest.0, rest.1 ∙ first.1, rest.2 ∙ first.2),
    )

-- A connection that is open is closed once for good: `close` sets the status, forgets the SSL
-- object and the file and counts one user less, and whatever calls follow it, further calls of
-- `close` among them, release nothing again, count no user again and leave it closed without SSL.
pub close_once :
    (c : UpDownCon) (half : Bool) (calls : List Call)
    → c.is_close ≡ false
    → ((close c half).0.status ≡ closed)
      × ((close c half).0.task.file_fd ≡ none)
      × (all_effects c (closes half ∷ calls) ≡ (close c half).1)
      × ((run c (closes half ∷ calls)).is_close ≡ true)
      × ((run c (closes half ∷ calls)).client_ssl ≡ none)
      × ((run c (closes half ∷ calls)).user_count ≡ one_less c.user_count)
unfolding run all_effects step close
close_once c half calls h =
    let d = (close c half).0 in
    let shut : d.is_close ≡ true = ground arith in
    let (silent, stays) = run_closed calls d shut in
    (
      ground arith,
      ground arith,
      ap (λ e. (close c half).1 ++ e) silent ∙ append-nil (close c half).1,
      stays.0,
      stays.2 ∙ ground arith,
      stays.1 ∙ ground arith,
    )

-- The threads that handle the parts of an upload, each with the size of the data that came and the
-- size that the message tells; the sum of the parts that are granted.
unfoldable pub reserve_all : UpDownCon → List (ℕ × ℕ) → UpDownCon × ℕ
reserve_all c [] = (c, 0)
reserve_all c (part ∷ parts) =
    let r = reserve c part.0 part.1 in
    let rest = reserve_all r.0 parts in (rest.0, (if r.1 then part.1 + rest.1 else rest.1))

-- No message tells more than `total` bytes.
abbrev pub AllParts : ℕ → List (ℕ × ℕ) → Type 0
AllParts total [] = Unit {0}
AllParts total (part ∷ parts) = (part.1 ≤ total) × AllParts total parts

reserve_bound :
    (c : UpDownCon) (data_size part total : ℕ)
    → c.task.file_size ≡ total
    → total < 2 ^ 64
    → part ≤ total
    → c.task.handled_size ≤ total
    → ((reserve c data_size part).0.task.handled_size
        ≡ c.task.handled_size + (if (reserve c data_size part).1 then part else 0))
      × ((reserve c data_size part).0.task.handled_size ≤ total)
      × ((reserve c data_size part).0.task.file_size ≡ total)
unfolding reserve less_equal_add add_handle_size
reserve_bound c data_size part total same small fits h =
    let exact : (c.task.file_size + 2 ^ 64 - part) % 2 ^ 64 ≡ total - part = omega arith in
    elim (Bool-cases (ltb data_size part)) [
      | inl short ↦ rw short (omega arith, h, same)
      | inr enough ↦
          rw (enough, exact)
            (elim (Bool-cases (leb c.task.handled_size (total - part))) [
              | inl granted ↦
                  let room = leb→le _ _ granted in rw granted (omega arith, omega arith, same)
              | inr refused ↦ rw refused (omega arith, h, same)
            ])
    ]

-- Whatever parts the threads ask for, each of at most the size of the file, from a handled size
-- of at most that: the handled size grows by exactly the parts that are granted, and never
-- beyond the size of the file.
pub reserve_all-bound :
    (parts : List (ℕ × ℕ)) (total : ℕ) (c : UpDownCon)
    → c.task.file_size ≡ total
    → total < 2 ^ 64
    → AllParts total parts
    → c.task.handled_size ≤ total
    → ((reserve_all c parts).0.task.handled_size ≡ c.task.handled_size + (reserve_all c parts).1)
      × ((reserve_all c parts).0.task.handled_size ≤ total)
unfolding reserve_all
reserve_all-bound [] total c same small fit h = (omega arith, h)
reserve_all-bound (part ∷ parts) total c same small fit h =
    let r = reserve c part.0 part.1 in
    let once = reserve_bound c part.0 part.1 total same small fit.0 h in
    let rest = reserve_all-bound parts total r.0 once.2 small fit.1 once.1 in
    (ground (arith, rest.0, once.0), rest.1)

-- A part larger than the whole file, with its data, is granted where the handled size is at most
-- that of the file and the sum fits 64 bits, since the difference of the two sizes wraps round;
-- the handled size is then beyond the size of the file.
pub reserve-too_large :
    (c : UpDownCon) (data_size part : ℕ)
    → c.task.handled_size ≤ c.task.file_size
    → c.task.file_size < part
    → part ≤ data_size
    → c.task.handled_size + part < 2 ^ 64
    → ((reserve c data_size part).1 ≡ true)
      × (c.task.file_size < (reserve c data_size part).0.task.handled_size)
unfolding reserve less_equal_add add_handle_size
reserve-too_large c data_size part h large came small =
    let exact : (c.task.file_size + 2 ^ 64 - part) % 2 ^ 64 ≡ c.task.file_size + 2 ^ 64 - part =
      omega arith in
    rw
      (
        le→ltb data_size part came,
        exact,
        le→leb c.task.handled_size (c.task.file_size + 2 ^ 64 - part) (omega arith),
      )
      (refl, omega arith)
