-- ===== src/MyDb/Examples.antt =====
-- The tables of a user "a" with two entries of one content.
use qt_asio_net_disk.Base.{same, ℕ, ◌≤◌, ◌≡◌, refl, [], ◌∷◌, true, false, arith, ◌==◌}
use qt_asio_net_disk.MyDb.{
  Row, Account, Db, where_rows, delete_rows, get_file_md5, max_id, insert_file_data, is_row,
  delete_one_file,
}
use qt_asio_net_disk.MyDb.Laws.{
  used_by, Balanced, AllBelow, new_row, insert_file_data-new, insert_file_data-half,
  delete_one_file-deletes,
}

abbrev entry : ℕ → Row
entry n = record {
  file_id = n;
  user = 97 ∷ [];
  file_name = 98 ∷ [];
  dir_grade = 0;
  file_type = 99 ∷ [];
  md5 = 109 ∷ [];
  file_size = 5;
  parent_dir = 0;
}

abbrev account : Account
account = record { user = 97 ∷ []; pwd = 112 ∷ []; capacity_sum = 100; used_capacity = 10 }

abbrev two_entries : Db
two_entries = record { rows = entry 1 ∷ entry 2 ∷ []; accounts = account ∷ [] }

two_entries-Balanced : Balanced two_entries
unfolding used_by same
two_entries-Balanced = (refl, tt)

insert_file_data-new_example :
    (after : Db) × (insert_file_data two_entries
        (λ k. false)
        (97 ∷ [])
        (98 ∷ [])
        (110 ∷ [])
        7
        0
        (99 ∷ [])
      ≡ (after, 3))
    × (after.rows
        ≡ entry 1 ∷ entry 2 ∷ new_row two_entries (97 ∷ []) (98 ∷ []) (110 ∷ []) 7 0 (99 ∷ []) ∷ [])
    × AllBelow 3 (entry 1 ∷ entry 2 ∷ [])
    × (1 ≤ 3)
    × Balanced after
unfolding where_rows same max_id
insert_file_data-new_example =
    insert_file_data-new two_entries (λ k. false) (97 ∷ []) (98 ∷ []) (110 ∷ []) 7 0 (99 ∷ [])
      two_entries-Balanced (refl, refl) refl refl (omega arith, (omega arith, tt))

insert_file_data-half_example :
    (after : Db) × (insert_file_data two_entries
        (λ k. k == 3)
        (97 ∷ [])
        (98 ∷ [])
        (110 ∷ [])
        7
        0
        (99 ∷ [])
      ≡ (after, 0))
    × (after.rows
        ≡ entry 1 ∷ entry 2 ∷ new_row two_entries (97 ∷ []) (98 ∷ []) (110 ∷ []) 7 0 (99 ∷ []) ∷ [])
    × (¬ Balanced after)
insert_file_data-half_example =
    insert_file_data-half two_entries (λ k. k == 3) (97 ∷ []) (98 ∷ []) (110 ∷ []) 7 0 (99 ∷ [])
      two_entries-Balanced (refl, refl) refl account [] refl refl refl (omega arith)

delete_one_file-deletes_example :
    (after : Db) × (delete_one_file two_entries (λ k. false) false (97 ∷ []) 1
      ≡ ((after, true), false))
    × (after.rows ≡ delete_rows (is_row (97 ∷ []) 1 (109 ∷ [])) (entry 1 ∷ entry 2 ∷ []))
    × Balanced after
unfolding where_rows same get_file_md5
delete_one_file-deletes_example =
    delete_one_file-deletes two_entries (λ k. false) false (97 ∷ []) (109 ∷ []) 1 (entry 1)
      (entry 1) (entry 2 ∷ []) two_entries-Balanced (λ k. refl) refl refl refl refl refl
