-- ===== src/Runs/Stores.antt =====
-- Runs of the in-memory checkpoint store.
use multi_log.Prelude.{◌≡◌, refl, [], ◌∷◌, get, put, codes, some, ok}
use multi_log.Chain.Sealer.{sealed_entry}
use multi_log.Checkpoint.{Checkpoint}
use multi_log.Witness.{MemStore, new_mem_store, mem_put, mem_get}
use multi_log.Witness.Mem.{put_all, mem_put_keeps}
use multi_log.Runs.Toy.{acme, anchored}

abbrev worm : MemStore
worm = (mem_put anchored (new_mem_store (codes "worm"))).1

abbrev again : Checkpoint
again = record anchored { entry_count = 1 }

worm_holds : mem_get acme 1 worm ≡ ok (some anchored)
unfolding mem_get mem_put get put sealed_entry
worm_holds = refl

mem_put_keeps_example : mem_get acme 1 (put_all (again ∷ anchored ∷ []) worm) ≡ ok (some anchored)
mem_put_keeps_example = mem_put_keeps (again ∷ anchored ∷ []) worm acme 1 anchored worm_holds
