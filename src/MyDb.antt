-- ===== src/MyDb.antt =====
-- MyDB of NetDisk-Server/Server/code/sql/MyDB.cpp: the tables FileDir and Users, and what the statements
-- of each function do to them. Numbers that the database keeps as text are numbers here. `fails k`
-- is whether the k-th statement of a function ends in an SQLException.
pub mod Laws
mod Examples
use qt_asio_net_disk.Base.{
  ℕ, ◌+◌, ◌-◌, ◌%◌, ◌^◌, List, [], ◌∷◌, ◌++◌, map, Option, none, some, Bool, true, false, ltb, leb,
  ◌==◌, ◌&&◌, ◌||◌, not, if◌then◌else◌, same,
}
use qt_asio_net_disk.Buffer.{sub_size}

-- A row of FileDir. A directory has the type "d".
pub record Row : Type 0 where
  pub file_id : ℕ
  pub user : List ℕ
  pub file_name : List ℕ
  pub dir_grade : ℕ
  pub file_type : List ℕ
  pub md5 : List ℕ
  pub file_size : ℕ
  pub parent_dir : ℕ

-- The columns of Users that the statements use.
pub record Account : Type 0 where
  pub user : List ℕ
  pub pwd : List ℕ
  pub capacity_sum : ℕ
  pub used_capacity : ℕ

pub record Db : Type 0 where
  pub rows : List Row
  pub accounts : List Account

-- The rows that a condition selects, in their order.
unfoldable pub where_rows : (Row → Bool) → List Row → List Row
where_rows p [] = []
where_rows p (r ∷ rs) = let rest = where_rows p rs in if p r then r ∷ rest else rest

-- The rows that a DELETE leaves.
unfoldable pub delete_rows : (Row → Bool) → List Row → List Row
delete_rows p [] = []
delete_rows p (r ∷ rs) = let rest = delete_rows p rs in if p r then rest else r ∷ rest

-- `UPDATE Users SET usedCapacity=... where User=?`
unfoldable pub update_used : List ℕ → (ℕ → ℕ) → List Account → List Account
update_used user f [] = []
update_used user f (a ∷ others) =
    let rest = update_used user f others in
    if same a.user user then record a { used_capacity = f a.used_capacity } ∷ rest else a ∷ rest

-- "d"
abbrev pub dir_type : List ℕ
dir_type = 100 ∷ []

abbrev pub is_file : List ℕ → ℕ → Row → Bool
is_file user file_id r =
    ((r.file_id == file_id) && same r.user user) && not (same r.file_type dir_type)

-- getFileMd5
unfoldable pub get_file_md5 : Db → List ℕ → ℕ → Option (List ℕ)
get_file_md5 db user file_id = elim (where_rows (is_file user file_id) db.rows) [
  | [] ↦ none
  | r ∷ rs ↦ some r.md5
]

abbrev pub has_md5 : List ℕ → List ℕ → Row → Bool
has_md5 user md5 r = same r.user user && same r.md5 md5

-- getFileExist
unfoldable pub get_file_exist : Db → List ℕ → List ℕ → Bool
get_file_exist db user md5 = elim (where_rows (has_md5 user md5) db.rows) [
  | [] ↦ false
  | r ∷ rs ↦ true
]

-- The account with this name and password.
unfoldable pub find_account : List ℕ → List ℕ → List Account → Option Account
find_account user pwd [] = none
find_account user pwd (a ∷ others) =
    let rest = find_account user pwd others in
    if same a.user user && same a.pwd pwd then some a else rest

-- getIsEnoughSpace; the subtraction is on 64 bits.
unfoldable pub get_is_enough_space : Db → List ℕ → List ℕ → ℕ → Bool
get_is_enough_space db user pwd file_size = elim (find_account user pwd db.accounts) [
  | none ↦ false
  | some a ↦ leb file_size (sub_size a.capacity_sum a.used_capacity)
]

abbrev pub is_dir : List ℕ → ℕ → Row → Bool
is_dir user file_id r = (same r.user user && (r.file_id == file_id)) && same r.file_type dir_type

-- The grade below the directory, if there is one.
unfoldable pub grade_below : List Row → ℕ
grade_below [] = 0
grade_below (r ∷ rs) = r.dir_grade + 1

-- The highest identifier of some rows: ORDER BY Fileid DESC LIMIT 1.
unfoldable pub max_id : List Row → Option ℕ
max_id [] = none
max_id (r ∷ rs) = elim (max_id rs) [
  | none ↦ some r.file_id
  | some m ↦ some (if ltb r.file_id m then m else r.file_id)
]

abbrev pub next_id : Option ℕ → ℕ
next_id none = 1
next_id (some m) = (m + 1) % 2 ^ 64

abbrev pub of_user : List ℕ → Row → Bool
of_user user r = same r.user user

-- insertFileData: the identifier of the new row, or 0.
unfoldable pub insert_file_data :
    Db → (ℕ → Bool) → List ℕ → List ℕ → List ℕ → ℕ → ℕ → List ℕ → Db × ℕ
insert_file_data db fails user file_name file_md5 file_size parent_dir_id suffix =
    let grade =
      if fails 0 then 0 else grade_below (where_rows (is_dir user parent_dir_id) db.rows) in
    let fileid = if fails 1 then 1 else next_id (max_id (where_rows (of_user user) db.rows)) in
    let row : Row = record {
      file_id = fileid;
      user = user;
      file_name = file_name;
      dir_grade = grade;
      file_type = suffix;
      md5 = file_md5;
      file_size = file_size;
      parent_dir = parent_dir_id;
    } in
    let entered = record db { rows = db.rows ++ row ∷ [] } in
    let counted = record entered { accounts = update_used user (λ u. u + file_size) db.accounts } in
    if fails 2 then (db, 0) else if fails 3 then (entered, 0) else (counted, fileid)

abbrev pub is_row : List ℕ → ℕ → List ℕ → Row → Bool
is_row user file_id md5 r = ((r.file_id == file_id) && same r.user user) && same r.md5 md5

-- The rows with the same content: `next` is told the size in the first, and whether it is the only one.
unfoldable pub count_same :
    (List ℕ → ℕ → Bool → (Db × Bool) × Bool) → List ℕ → List Row → Db → (Db × Bool) × Bool
count_same next md5 [] db = ((db, false), false)
count_same next md5 (r ∷ []) db = next md5 r.file_size true
count_same next md5 (r ∷ s ∷ rs) db = next md5 r.file_size false

-- deleteOneFile: `removed` is whether the file in the file system can be opened and removed; the last
-- result is whether that is tried.
unfoldable pub delete_one_file : Db → (ℕ → Bool) → Bool → List ℕ → ℕ → (Db × Bool) × Bool
delete_one_file db fails removed user file_id =
    let deleted = λ (md5 : List ℕ) (size : ℕ) (last : Bool).
      (let left = record db { rows = delete_rows (is_row user file_id md5) db.rows } in
        let counted = record left { accounts = update_used user (λ u. u - size) db.accounts } in
        if fails 2
        then ((db, false), false)
        else if fails 3
        then ((left, false), false)
        else if last
        then ((counted, removed), true)
        else ((counted, true), false)) in
    let selected =
      λ (md5 : List ℕ). count_same deleted md5 (where_rows (has_md5 user md5) db.rows) db in
    let looked_up = elim (get_file_md5 db user file_id) as (λ o. (Db × Bool) × Bool) [
      | none ↦ ((db, false), false)
      | some md5 ↦ if fails 1 then ((db, false), false) else selected md5
    ] in
    if (file_id == 0) || fails 0 then ((db, false), false) else looked_up
