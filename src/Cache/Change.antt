-- ===== src/Cache/Change.antt =====
-- The three ways in which an access changes a set: the line that is found is changed, a line is
-- queued in a set with room, and a line is queued in a full set after its head is dropped.
use computer_architecture.Base.{
  ℕ, suc, ◌/◌, ◌≤◌, ◌<◌, ◌≡◌, ◌≢◌, refl, sym, ◌∙◌, some, List, [], ◌∷◌, ◌++◌, length, length-append,
  get_or, All, All-map, All-both, All-append, ap, ap₂, arith, ◌==◌, if◌then◌else◌, Option-cases,
  Bool-cases, inl, inr,
}
use computer_architecture.Memory.{Memory, IsAligned}
use computer_architecture.Cache.Line.{Line, addr_tag, addr_index, addr_offset}
use computer_architecture.Cache.Set.{set_num, save_head}
use computer_architecture.Cache.Coherent.{find, word_addr, Distinct, LineIsOk, view_set}
use computer_architecture.Cache.Block.{
  word_addr-IsAligned, word_addr_parts, read-cache_write_back_eq, read-cache_write_back_ne,
}
use computer_architecture.Cache.Search.{
  replace, find-replace, length-replace, replace-All, replace-Distinct, find-append,
  find-append_some, append-Distinct, find-tag, find-All, find_absent,
}
use computer_architecture.Cache.Step.{SetStep, LineIsOk-frame}

module _ {Space : Type 0} (M : Memory Space) (s : Space) (index tag : ℕ) (new : Line)
    (same : new.tag ≡ tag) where
  open M use {read_word}

  pub hit-SetStep :
      (lines : List Line) (l : Line)
      → LineIsOk M s index new
      → All (LineIsOk M s index) lines
      → Distinct lines
      → length lines ≤ set_num
      → find tag lines ≡ some l
      → SetStep M index tag new lines (replace tag new lines) s s
  unfolding view_set
  hit-SetStep lines l ok each d few h = record {
    each = replace-All tag new same (LineIsOk M s index) lines each ok;
    distinct = replace-Distinct tag new same lines l d h;
    bounded = omega (arith, length-replace tag new same lines);
    found = find-replace tag new same lines l tag ok.in_use h ∙ ground arith;
    elsewhere = λ b _ _. refl;
    reads = λ b _ _. ground (arith, find-replace tag new same lines l (addr_tag b) ok.in_use h);
  }

  queue-found :
      (lines : List Line)
      → LineIsOk M s index new
      → All (λ l. l.tag ≢ tag) lines
      → find tag (lines ++ new ∷ []) ≡ some new
  queue-found lines ok absent =
      find-append tag lines new (find_absent tag lines absent) ∙ ground (arith, ok.in_use)

  -- The memory after the head is saved: its block holds its words, the rest is as it was.
  module _ (head : Line) (rest : List Line) (wb : ℕ) (small : index < 16)
      (head_ok : LineIsOk M s index head) where
    abbrev saved : Space
    saved = (save_head M (head ∷ rest) index wb s).1

    read-save_head_eq :
        (k : ℕ) → k < 4 → read_word saved (word_addr head.tag index k) ≡ get_or head.words k 0
    unfolding save_head
    read-save_head_eq k p = elim (Bool-cases head.dirty) [
      | inl e ↦ ground (arith, read-cache_write_back_eq M s index head small head_ok k p)
      | inr e ↦ ground (arith, head_ok.clean e k p)
    ]

    read-save_head_ne :
        (b : ℕ)
        → IsAligned b
        → (addr_tag b ≡ head.tag → addr_index b ≢ index)
        → read_word saved b ≡ read_word s b
    unfolding save_head
    read-save_head_ne b h other = elim (Bool-cases head.dirty) [
      | inl e ↦ ground (arith, read-cache_write_back_ne M s index head small head_ok b h other)
      | inr e ↦ ground arith
    ]

    -- Where the head answered, the memory does now.
    read-save_head_here :
        (b : ℕ)
        → IsAligned b
        → addr_index b ≡ index
        → addr_tag b ≡ head.tag
        → read_word saved b ≡ get_or head.words (addr_offset b / 4) 0
    read-save_head_here b h e f =
        ap (λ x. read_word saved x)
          (sym (word_addr_parts b h) ∙ ap₂ (λ x y. word_addr x y (addr_offset b / 4)) f e)
        ∙ read-save_head_eq (addr_offset b / 4) (omega arith)

    module _ (ok : LineIsOk M s index new) (each : All (LineIsOk M s index) rest)
        (d : Distinct (head ∷ rest)) (absent : All (λ l. l.tag ≢ tag) (head ∷ rest)) where
      frame : (l : Line) → LineIsOk M s index l → l.tag ≢ head.tag → LineIsOk M saved index l
      frame l fine other =
          LineIsOk-frame M s saved index l
            (λ k p.
              read-save_head_ne (word_addr l.tag index k)
                (word_addr-IsAligned l.tag index k fine.tag_fits small p)
                (λ e. absurd (other (omega (arith, fine.tag_fits)))))
            fine

      evict-reads :
          (b : ℕ)
          → IsAligned b
          → addr_index b ≡ index
          → view_set M (rest ++ new ∷ []) saved b ≡ (
              if addr_tag b == tag
              then get_or new.words (addr_offset b / 4) 0
              else view_set M (head ∷ rest) s b)
      unfolding view_set
      evict-reads b h e = elim (Option-cases (find (addr_tag b) rest)) [
        | inl miss ↦ ground (
          arith,
          find-append (addr_tag b) rest new miss,
          read-save_head_here b h e,
          read-save_head_ne b h,
          head_ok.in_use,
          ok.in_use,
        )
        | inr (l, hit) ↦
            let other = find-All (λ x. x.tag ≢ head.tag) (addr_tag b) rest l d.0 hit in
            let new_tag = find-All (λ x. x.tag ≢ tag) (addr_tag b) rest l absent.1 hit in
            ground (
              arith,
              find-append_some (addr_tag b) rest new l hit,
              find-tag (addr_tag b) rest l hit,
              other,
              new_tag,
            )
      ]

      pub evict-SetStep :
          suc (length rest) ≤ set_num
          → SetStep M index tag new (head ∷ rest) (rest ++ new ∷ []) s saved
      evict-SetStep few = record {
        each =
            All-append (LineIsOk M saved index) rest (new ∷ [])
              (All-both (λ l. LineIsOk M s index l) (λ l. l.tag ≢ head.tag) rest frame each d.0)
              (frame new ok (λ e. absent.0 (sym e ∙ same)), tt);
        distinct = append-Distinct rest new d.1 (All-map rest (λ l p e. p (e ∙ same)) absent.1);
        bounded = omega (arith, length-append rest (new ∷ []));
        found = queue-found rest ok absent.1;
        elsewhere = λ b h ne. read-save_head_ne b h (λ _. ne);
        reads = evict-reads;
      }

  module _ (lines : List Line) (ok : LineIsOk M s index new) (each : All (LineIsOk M s index) lines)
      (d : Distinct lines) (absent : All (λ l. l.tag ≢ tag) lines) where
    queue-reads :
        (b : ℕ)
        → view_set M (lines ++ new ∷ []) s b ≡ (
            if addr_tag b == tag
            then get_or new.words (addr_offset b / 4) 0
            else view_set M lines s b)
    unfolding view_set
    queue-reads b = elim (Option-cases (find (addr_tag b) lines)) [
      | inl miss ↦ ground (arith, find-append (addr_tag b) lines new miss, ok.in_use)
      | inr (l, hit) ↦
          let new_tag = find-All (λ x. x.tag ≢ tag) (addr_tag b) lines l absent hit in
          ground (
            arith,
            find-append_some (addr_tag b) lines new l hit,
            find-tag (addr_tag b) lines l hit,
            new_tag,
          )
    ]

    pub queue-SetStep :
        length lines < set_num → SetStep M index tag new lines (lines ++ new ∷ []) s s
    queue-SetStep few = record {
      each = All-append (LineIsOk M s index) lines (new ∷ []) each (ok, tt);
      distinct = append-Distinct lines new d (All-map lines (λ l p e. p (e ∙ same)) absent);
      bounded = omega (arith, length-append lines (new ∷ []));
      found = queue-found lines ok absent;
      elsewhere = λ b _ _. refl;
      reads = λ b _ _. queue-reads b;
    }
