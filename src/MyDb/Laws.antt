-- ===== src/MyDb/Laws.antt =====
-- The used capacity of every account is the size of its files.
use qt_asio_net_disk.Base.{
  same, same_refl, same→eq, ℕ, ◌+◌, ◌-◌, ◌%◌, ◌^◌, ◌<◌, ◌≤◌, ◌≡◌, refl, ap, sym, subst, ◌∙◌, ◌⊎◌,
  inl, inr, List, [], ◌∷◌, ◌++◌, none, some, Bool, true, false, arith, length, ltb, ltb→lt, ltb→le,
  Bool-cases, ◌==◌, ◌&&◌, if◌then◌else◌,
}
use qt_asio_net_disk.MyDb.{
  Row, Account, Db, where_rows, delete_rows, update_used, get_file_md5, has_md5, grade_below,
  max_id, next_id, of_user, is_dir, insert_file_data, is_row, count_same, delete_one_file,
}

same_sym : (xs ys : List ℕ) → same xs ys ≡ same ys xs
same_sym xs ys = elim (Bool-cases (same xs ys)) [
  | inl hit ↦ let e = same→eq xs ys hit in rw e
  | inr miss ↦ elim (Bool-cases (same ys xs)) [
    | inl hit ↦ let e = same→eq ys xs hit in rw e
    | inr miss' ↦ miss ∙ sym miss'
  ]
]

-- The size of the rows of a user.
unfoldable pub used_by : List ℕ → List Row → ℕ
used_by u [] = 0
used_by u (r ∷ rs) = (if same r.user u then r.file_size else 0) + used_by u rs

abbrev pub AllBalanced : List Row → List Account → Type 0
AllBalanced rows [] = Unit {0}
AllBalanced rows (a ∷ others) = (a.used_capacity ≡ used_by a.user rows) × AllBalanced rows others

-- Every account is charged for exactly the files that the table has of it.
abbrev pub Balanced : Db → Type 0
Balanced db = AllBalanced db.rows db.accounts

used_by-append :
    (u : List ℕ) (rs : List Row) (r : Row)
    → used_by u (rs ++ r ∷ []) ≡ used_by u rs + (if same r.user u then r.file_size else 0)
unfolding used_by
used_by-append u [] r = omega arith
used_by-append u (s ∷ rs) r = omega (arith, used_by-append u rs r)

-- A change of the rows of one user, and the same change of what that user is charged.
update-AllBalanced :
    (user : List ℕ) (f : ℕ → ℕ) (rows after : List Row) (accounts : List Account)
    → ((u : List ℕ) → same u user ≡ false → used_by u after ≡ used_by u rows)
    → f (used_by user rows) ≡ used_by user after
    → AllBalanced rows accounts
    → AllBalanced after (update_used user f accounts)
unfolding update_used
update-AllBalanced user f rows after [] others own h = tt
update-AllBalanced user f rows after (a ∷ rest) others own h =
    elim (Bool-cases (same a.user user)) [
      | inl mine ↦
          let e : a.user ≡ user = same→eq a.user user mine in
          rw mine (
            ap f h.0 ∙ ap (λ u. f (used_by u rows)) e ∙ own ∙ ap (λ u. used_by u after) (sym e),
            update-AllBalanced user f rows after rest others own h.1,
          )
      | inr other ↦ rw other (
        h.0 ∙ sym (others a.user other),
        update-AllBalanced user f rows after rest others own h.1,
      )
    ]

-- The same rows, one row fewer.
split-where :
    (u : List ℕ) (p : Row → Bool) (rs : List Row)
    → used_by u (delete_rows p rs) + used_by u (where_rows p rs) ≡ used_by u rs
unfolding delete_rows where_rows used_by
split-where u p [] = omega arith
split-where u p (r ∷ rs) = elim (Bool-cases (p r)) [
  | inl hit ↦ rw hit (omega (arith, split-where u p rs))
  | inr miss ↦ rw miss (omega (arith, split-where u p rs))
]

first_or : Row → List Row → Row
first_or d [] = d
first_or d (r ∷ rs) = r

head-where :
    (p : Row → Bool) (rs others : List Row) (r : Row) → where_rows p rs ≡ r ∷ others → p r ≡ true
unfolding where_rows first_or
head-where p [] others r e = absurd (omega (arith, ap length e))
head-where p (s ∷ rs) others r e = elim (Bool-cases (p s)) [
  | inl hit ↦
      let now : s ∷ where_rows p rs ≡ r ∷ others = rw hit at e in
      ap p (sym (ap (first_or s) now)) ∙ hit
  | inr miss ↦ head-where p rs others r (rw miss at e)
]

middle : (a b c : Bool) → (a && b) && c ≡ true → b ≡ true
middle true true c h = refl
middle true false c h = h
middle false true c h = refl
middle false false c h = h

abbrev pub AllBelow : ℕ → List Row → Type 0
AllBelow n [] = Unit {0}
AllBelow n (r ∷ rs) = (r.file_id < n) × AllBelow n rs

AllBelow-mono : (m n : ℕ) (rs : List Row) → m ≤ n → AllBelow m rs → AllBelow n rs
AllBelow-mono m n [] h b = tt
AllBelow-mono m n (r ∷ rs) h b = (omega (arith, b.0), AllBelow-mono m n rs h b.1)

max_id_lem :
    (n : ℕ) (rs : List Row)
    → AllBelow n rs
    → ((max_id rs ≡ none) × (rs ≡ []))
      ⊎ ((m : ℕ) × (max_id rs ≡ some m) × (m < n) × AllBelow (m + 1) rs)
unfolding max_id
max_id_lem n [] b = inl (refl, refl)
max_id_lem n (r ∷ rs) b = elim (max_id_lem n rs b.1) [
  | inl (none_left, empty) ↦ inr (r.file_id, rw none_left, b.0, (omega arith, rw empty tt))
  | inr (m, found, low, below) ↦ elim (Bool-cases (ltb r.file_id m)) [
    | inl less ↦ inr (m, rw (found, less), low, (omega (arith, ltb→lt r.file_id m less), below))
    | inr more ↦ inr (
      r.file_id,
      rw (found, more),
      b.0,
      (
        omega arith,
        AllBelow-mono (m + 1) (r.file_id + 1) rs (omega (arith, ltb→le r.file_id m more)) below,
      ),
    )
  ]
]

next_id_lem :
    (rs : List Row)
    → AllBelow (2 ^ 64 - 1) rs
    → AllBelow (next_id (max_id rs)) rs × (1 ≤ next_id (max_id rs))
next_id_lem rs b = elim (max_id_lem (2 ^ 64 - 1) rs b) [
  | inl (none_left, empty) ↦ rw none_left (rw empty tt, omega arith)
  | inr (m, found, low, below) ↦
      let exact : (m + 1) % 2 ^ 64 ≡ m + 1 = omega arith in rw (found, exact) (below, omega arith)
]

-- The row that insertFileData adds where no statement fails.
abbrev pub new_row : Db → List ℕ → List ℕ → List ℕ → ℕ → ℕ → List ℕ → Row
new_row db user file_name md5 size parent suffix = record {
  file_id = next_id (max_id (where_rows (of_user user) db.rows));
  user = user;
  file_name = file_name;
  dir_grade = grade_below (where_rows (is_dir user parent) db.rows);
  file_type = suffix;
  md5 = md5;
  file_size = size;
  parent_dir = parent;
}

module _ (db : Db) (fails : ℕ → Bool) (user file_name md5 : List ℕ) (size parent : ℕ)
    (suffix : List ℕ) (before : Balanced db) (selects : (fails 0 ≡ false) × (fails 1 ≡ false))
    (enters : fails 2 ≡ false) where
  -- An entry that no statement fails for adds one row, under an identifier that is not 0 and above all
  -- of the user's, as long as those are below 2^64 - 1; and every account is charged for its files
  -- as before.
  pub insert_file_data-new :
      fails 3 ≡ false
      → AllBelow (2 ^ 64 - 1) (where_rows (of_user user) db.rows)
      → (after : Db) × (insert_file_data db fails user file_name md5 size parent suffix
          ≡ (after, next_id (max_id (where_rows (of_user user) db.rows))))
        × (after.rows ≡ db.rows ++ new_row db user file_name md5 size parent suffix ∷ [])
        × AllBelow
            (next_id (max_id (where_rows (of_user user) db.rows)))
            (where_rows (of_user user) db.rows)
        × (1 ≤ next_id (max_id (where_rows (of_user user) db.rows)))
        × Balanced after
  unfolding insert_file_data
  insert_file_data-new counts below =
      let row : Row = new_row db user file_name md5 size parent suffix in
      let rows : List Row = db.rows ++ row ∷ [] in
      let fresh = next_id_lem (where_rows (of_user user) db.rows) below in
      let others : (u : List ℕ) → same u user ≡ false → used_by u rows ≡ used_by u db.rows =
        λ u other. used_by-append u db.rows row ∙ rw (same_sym user u, other) (omega arith) in
      let own : used_by user db.rows + size ≡ used_by user rows =
        sym (used_by-append user db.rows row ∙ rw (same_refl user)) in
      (
        record { rows = rows; accounts = update_used user (λ u. u + size) db.accounts },
        simp (insert_file_data, selects.0, selects.1, enters, counts),
        refl,
        fresh.0,
        fresh.1,
        update-AllBalanced user (λ u. u + size) db.rows rows db.accounts others own before,
      )

  -- Where only the last statement fails, 0 is returned, as for an entry that was not made; but the
  -- row stays, and the account of the user, if it is the first, is not charged for it, where the file
  -- is not empty.
  pub insert_file_data-half :
      (a : Account) (others : List Account)
      → fails 3 ≡ true
      → db.accounts ≡ a ∷ others
      → a.user ≡ user
      → 1 ≤ size
      → (after : Db) × (insert_file_data db fails user file_name md5 size parent suffix
          ≡ (after, 0))
        × (after.rows ≡ db.rows ++ new_row db user file_name md5 size parent suffix ∷ [])
        × (¬ Balanced after)
  unfolding insert_file_data
  insert_file_data-half a others fails_last first mine some_bytes =
      let row : Row = new_row db user file_name md5 size parent suffix in
      let rows : List Row = db.rows ++ row ∷ [] in
      let charged : a.used_capacity ≡ used_by a.user db.rows =
        (subst (AllBalanced db.rows) first before).0 in
      let more : used_by user rows ≡ used_by user db.rows + size =
        used_by-append user db.rows row ∙ rw (same_refl user) in
      (
        record { rows = rows; accounts = db.accounts },
        simp (insert_file_data, selects.0, selects.1, enters, fails_last),
        refl,
        λ balanced.
            let now : a.used_capacity ≡ used_by a.user rows =
              (subst (AllBalanced rows) first balanced).0 in
            omega (arith, rw mine at charged, rw mine at now, more),
      )

-- Whether there is one row only.
abbrev pub only : List Row → Bool
only [] = true
only (r ∷ rs) = false

delete_one_file-run :
    (db : Db) (fails : ℕ → Bool) (removed : Bool) (user md5 : List ℕ) (file_id : ℕ) (s : Row)
    (rest : List Row)
    → ((k : ℕ) → fails k ≡ false)
    → (file_id == 0) ≡ false
    → get_file_md5 db user file_id ≡ some md5
    → where_rows (has_md5 user md5) db.rows ≡ s ∷ rest
    → delete_one_file db fails removed user file_id ≡ (
      (
        record {
          rows = delete_rows (is_row user file_id md5) db.rows;
          accounts = update_used user (λ u. u - s.file_size) db.accounts;
        },
        (if only rest then removed else true),
      ),
      only rest,
    )
unfolding delete_one_file count_same
delete_one_file-run db fails removed user md5 file_id s [] works id known alike =
    simp (delete_one_file, id, works, known, alike)
delete_one_file-run db fails removed user md5 file_id s (t ∷ rest) works id known alike =
    simp (delete_one_file, id, works, known, alike)

-- Where no statement fails and every account is charged for its files, the deletion of a file, with an
-- identifier other than 0, of which the user has one row, whose content has the size of the user's
-- first row with that content, removes just that row, and every account is charged for its files
-- as before. That the file system's file is to be removed is told exactly where no other row
-- of the same user has its content, and its removal then decides the result.
pub delete_one_file-deletes :
    (db : Db) (fails : ℕ → Bool) (removed : Bool) (user md5 : List ℕ) (file_id : ℕ) (r s : Row)
    (rest : List Row)
    → Balanced db
    → ((k : ℕ) → fails k ≡ false)
    → (file_id == 0) ≡ false
    → get_file_md5 db user file_id ≡ some md5
    → where_rows (is_row user file_id md5) db.rows ≡ r ∷ []
    → where_rows (has_md5 user md5) db.rows ≡ s ∷ rest
    → s.file_size ≡ r.file_size
    → (after : Db) × (delete_one_file db fails removed user file_id
        ≡ ((after, (if only rest then removed else true)), only rest))
      × (after.rows ≡ delete_rows (is_row user file_id md5) db.rows)
      × Balanced after
unfolding used_by
delete_one_file-deletes db fails removed user md5 file_id r s rest before works id known one alike
      size =
    let rows : List Row = delete_rows (is_row user file_id md5) db.rows in
    let after : Db = record {
      rows = rows;
      accounts = update_used user (λ u. u - s.file_size) db.accounts;
    } in
    let hit = head-where (is_row user file_id md5) db.rows [] r one in
    let mine : r.user ≡ user =
      same→eq r.user user (middle (r.file_id == file_id) (same r.user user) (same r.md5 md5) hit) in
    let parts : (u : List ℕ) → used_by u rows + used_by u (r ∷ []) ≡ used_by u db.rows = λ u.
      ap (λ t. used_by u rows + used_by u t) (sym one)
      ∙ split-where u (is_row user file_id md5) db.rows in
    let others : (u : List ℕ) → same u user ≡ false → used_by u rows ≡ used_by u db.rows =
      λ u other.
        let none_of : used_by u (r ∷ []) ≡ 0 = rw (mine, same_sym user u, other) in
        omega (arith, parts u, none_of) in
    let own : used_by user db.rows - s.file_size ≡ used_by user rows =
      let all_of : used_by user (r ∷ []) ≡ r.file_size = rw (mine, same_refl user) (omega arith) in
      omega (arith, parts user, all_of, size) in
    (
      after,
      delete_one_file-run db fails removed user md5 file_id s rest works id known alike,
      refl,
      update-AllBalanced user (λ u. u - s.file_size) db.rows rows db.accounts others own before,
    )
