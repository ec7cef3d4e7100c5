-- ===== src/HashTable/Tests.antt =====
-- A table of two buckets whose keys are numbers.
use hp_nx_nic.Prelude.{ℕ, refl, List, [], ◌∷◌, ◌++◌, arith}
use hp_nx_nic.Prelude.Int.{sub_ℕ}
use hp_nx_nic.Prelude.Kernel.{Outcome, ok}
use hp_nx_nic.HashTable.{Node, Ops, Table, insert, delete, destroy, find}
use hp_nx_nic.HashTable.Chain.{IsLawful}
use hp_nx_nic.HashTable.Lookup.{IsValid, Inserts, insert-Inserts}
use hp_nx_nic.HashTable.Delete.{Deletes, delete-Deletes, all_nodes, Visits, destroy-Visits}

abbrev number_ops : Ops ℕ
number_ops = record { hash = λ k. k; compare_keys = λ a b. sub_ℕ a b }

number_ops-IsLawful : IsLawful number_ops
number_ops-IsLawful = record {
  same_refl = λ a. ground arith;
  same_sym = λ a b. ground arith;
  same_cong = λ a b c h. ground arith;
}

abbrev node4 : Node ℕ ℕ
node4 = record { addr = 4096; key = 4; container = 0 }

abbrev node6 : Node ℕ ℕ
node6 = record { addr = 8192; key = 6; container = 0 }

abbrev table : Table ℕ ℕ
table = record { buckets = (node6 ∷ []) ∷ [] ∷ []; bucket_cnt = 2 }

table-IsValid : IsValid number_ops table
unfolding find
table-IsValid = record {
  sized = refl;
  nonempty = omega arith;
  int_sized = omega arith;
  all_unique = ((refl, tt), (tt, tt));
}

insert-Inserts_example :
    Inserts number_ops table table-IsValid node4 (insert number_ops node4 table)
insert-Inserts_example = insert-Inserts number_ops table table-IsValid number_ops-IsLawful node4

delete-Deletes_example : Deletes number_ops table table-IsValid 6 (delete number_ops 6 table)
delete-Deletes_example = delete-Deletes number_ops table table-IsValid number_ops-IsLawful 6

-- A callback that collects the addresses.
abbrev collect : Node ℕ ℕ → List ℕ → Outcome (List ℕ)
collect n seen = ok (seen ++ n.addr ∷ [])

destroy-Visits_example : Visits collect (all_nodes table.buckets) [] (destroy collect table [])
destroy-Visits_example = destroy-Visits collect table []
