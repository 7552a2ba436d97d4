-- ===== src/Page/Buffer/Clearing.antt =====
-- What `write` leaves of a buffer when it is cleared afterwards.
use asymmetricfs.Prelude.{
  ℕ, zero, suc, ◌≡◌, refl, ◌∙◌, Bool, get_elem?, Memory, assert, IfDone, Bool-cases, inl, inr,
  map-IfDone, then-IfDone, bind-IfDone, if-IfDone, option-IfDone, ltb, leb, add64, sub64,
}
use asymmetricfs.Page.Allocation.{page_allocation}
use asymmetricfs.Page.Blocks.{find, lower_bound}
use asymmetricfs.Page.Buffer.{
  PageBuffer, clear, new_block_end, allocate_block, new_block, locate_block, write_block,
  write_round, write_loop, write, is_page_multiple,
}

abbrev ClearsTo : PageBuffer → ℕ × PageBuffer → Type 0
ClearsTo b (n, b') = clear b' ≡ clear b

allocate_block-clear :
    (mmap : Bool → ℕ → Bool) (b : PageBuffer) (base n position : ℕ)
    → IfDone (λ b'. clear b' ≡ clear b) (allocate_block mmap b base n position)
unfolding allocate_block clear
allocate_block-clear mmap b base n position =
    let end = new_block_end b base n position in
    then-IfDone (λ b'. clear b' ≡ clear b) (assert (ltb base end)) _
      (λ u.
        then-IfDone (λ b'. clear b' ≡ clear b)
          (assert (ltb (sub64 end base) (add64 (sub64 n position) b.page_size))) _
          (λ u.
            then-IfDone (λ b'. clear b' ≡ clear b)
              (assert (is_page_multiple b.page_size (sub64 end base))) _
              (λ u.
                then-IfDone (λ b'. clear b' ≡ clear b)
                  (page_allocation mmap (sub64 end base) b.mlock) _ (λ a. refl))))

new_block-ClearsTo :
    (mmap : Bool → ℕ → Bool) (b : PageBuffer) (base n position : ℕ)
    → IfDone (λ r. ClearsTo b r) (new_block mmap b base n position)
unfolding new_block
new_block-ClearsTo mmap b base n position =
    bind-IfDone (λ r. ClearsTo b r) (λ b'. clear b' ≡ clear b) _ _
      (allocate_block-clear mmap b base n position) (λ b' e. e)

locate_block-ClearsTo :
    (mmap : Bool → ℕ → Bool) (b : PageBuffer) (base n position : ℕ)
    → IfDone (λ r. ClearsTo b r) (locate_block mmap b base n position)
unfolding locate_block
locate_block-ClearsTo mmap b base n position =
    option-IfDone (λ r. ClearsTo b r) (find base b.page_allocations) _ _
      (λ missing.
        option-IfDone (λ r. ClearsTo b r)
          (get_elem? b.page_allocations (lower_bound base b.page_allocations)) _ _
          (λ at_end. new_block-ClearsTo mmap b base n position)
          (λ (k, a) there.
            if-IfDone (λ r. ClearsTo b r) (ltb base k) _ _
              (λ above. new_block-ClearsTo mmap b base n position) (λ here. refl)))
      (λ a found. refl)

write_block-ClearsTo :
    (b : PageBuffer) (base n offset position : ℕ) (buffer : Memory)
    → IfDone (λ r. ClearsTo b r) (write_block b base n offset position buffer)
unfolding write_block clear
write_block-ClearsTo b base n offset position buffer =
    option-IfDone (λ r. ClearsTo b r) (find base b.page_allocations) _ _ (λ missing. tt)
      (λ a found.
        then-IfDone (λ r. ClearsTo b r) (assert (leb base (add64 offset position))) _
          (λ u.
            then-IfDone (λ r. ClearsTo b r)
              (assert (ltb (sub64 (add64 offset position) base) a.size)) _ (λ u. refl)))

write_round-ClearsTo :
    (mmap : Bool → ℕ → Bool) (b : PageBuffer) (n offset position : ℕ) (buffer : Memory)
    → IfDone (λ r. ClearsTo b r) (write_round mmap b n offset position buffer)
unfolding write_round
write_round-ClearsTo mmap b n offset position buffer =
    then-IfDone (λ r. ClearsTo b r) (assert _) _
      (λ u.
        bind-IfDone (λ r. ClearsTo b r) (λ r. ClearsTo b r) (locate_block mmap b _ n position) _
          (locate_block-ClearsTo mmap b _ n position)
          (λ (base, b') e.
            map-IfDone (λ r. ClearsTo b r) (λ r. ClearsTo b' r) _
              (write_block-ClearsTo b' base n offset position buffer) (λ r f. f ∙ e)))

write_loop-clear :
    (mmap : Bool → ℕ → Bool) (fuel : ℕ) (b : PageBuffer) (n offset position : ℕ) (buffer : Memory)
    → IfDone (λ b'. clear b' ≡ clear b) (write_loop mmap fuel b n offset position buffer)
unfolding write_loop
write_loop-clear mmap zero b n offset position buffer = tt
write_loop-clear mmap (suc fuel) b n offset position buffer = elim (Bool-cases (ltb position n)) [
  | inr finished ↦ rw (finished, write_loop) refl
  | inl more ↦
      rw (more, write_loop)
        (bind-IfDone (λ b'. clear b' ≡ clear b) (λ r. ClearsTo b r)
          (write_round mmap b n offset position buffer) _
          (write_round-ClearsTo mmap b n offset position buffer)
          (λ (position', b') e.
            map-IfDone (λ c. clear c ≡ clear b) (λ c. clear c ≡ clear b') _
              (write_loop-clear mmap fuel b' n offset position' buffer) (λ c f. f ∙ e)))
]

-- A buffer that is cleared after a write is the one that is cleared before it.
pub write-clear :
    (mmap : Bool → ℕ → Bool) (b : PageBuffer) (n offset : ℕ) (buffer : Memory)
    → IfDone (λ b'. clear b' ≡ clear b) (write mmap b n offset buffer)
unfolding write
write-clear mmap b n offset buffer = write_loop-clear mmap (suc n) b n offset 0 buffer
