-- ===== src/Tgapi/Owned.antt =====
-- The blocks that tgj_get_message (lib/tgapi.c) allocates: what is said of them, and the lemmas on
-- the parts that allocate and free one.
pub mod Message
pub mod Free
use Prim.Native.String.{String}
use gnuweeb_bot.Common.{
  ℕ, ◌+◌, ◌≡◌, ◌≢◌, refl, sym, ap, ◌∙◌, Bool, true, false, Option, none, some, List, [], ◌∷◌, ◌++◌,
  ◌==◌, if◌then◌else◌, arith, Bool-cases, inl, inr,
}
use gnuweeb_bot.Common.Int.{ℤ, pos, negsuc, is_zero, is_neg}
use gnuweeb_bot.Common.Errno.{enomem}
use gnuweeb_bot.Tgapi.{TgUser, TgChat, Box, TgMessage, tg_msg_text}
use gnuweeb_bot.Tgapi.Memory.{Memory, malloc, remove, free, free_opt}
use gnuweeb_bot.Tgapi.Object.{
  fill_box, fill_entities, size_of_int, with_entities, err_free_from, err_free_chat,
}

abbrev pub opt_list : Option ℕ → List ℕ
opt_list none = []
opt_list (some a) = a ∷ []

-- The entities, where the message is a text.
abbrev pub owned_entities : TgMessage → List ℕ
owned_entities msg = if msg.type == tg_msg_text then opt_list msg.entities else []

-- How tgj_get_user_and_alloc and tgj_get_chat_and_alloc end: with a fresh block, or with none.
pub data Boxed {A : Type 0} (mem : Memory) (out : ℤ × Option (Box A) × Memory) : Type 0 where
  boxed :
      (value : A) (mem' : Memory)
      → out ≡ (pos 0, some (record { at = mem.calls; value = value }), mem')
      → mem'.calls ≡ mem.calls + 1
      → mem'.live ≡ mem.calls ∷ mem.live
      → mem'.refs ≡ mem.refs
      → Boxed mem out
  missed :
      (ret : ℤ) (mem' : Memory)
      → out ≡ (ret, none, mem')
      → is_zero ret ≡ false
      → mem'.live ≡ mem.live
      → mem'.refs ≡ mem.refs
      → Boxed mem out

-- How a function on a message ends: with the blocks of the message on top of those before, or on
-- failure with those before, and no entities.
pub data Owns (mem : Memory) (out : ℤ × TgMessage × Memory) : Type 0 where
  owns :
      (msg : TgMessage) (mem' : Memory) (from : Box TgUser) (chat : Box TgChat)
      → out ≡ (pos 0, msg, mem')
      → msg.from ≡ some from
      → msg.chat ≡ some chat
      → from.at ≢ chat.at
      → mem'.live ≡ owned_entities msg ++ chat.at ∷ from.at ∷ mem.live
      → mem'.refs ≡ mem.refs
      → Owns mem out
  fails :
      (ret : ℤ) (msg : TgMessage) (mem' : Memory)
      → out ≡ (ret, msg, mem')
      → is_zero ret ≡ false
      → msg.entities ≡ none
      → mem'.live ≡ mem.live
      → mem'.refs ≡ mem.refs
      → Owns mem out

-- How tgj_arrange_message_variant ends.
pub data Arranged (msg : TgMessage) (mem : Memory) (out : ℤ × TgMessage × Memory) : Type 0 where
  arranged :
      (msg' : TgMessage) (mem' : Memory)
      → out ≡ (pos 0, msg', mem')
      → msg'.from ≡ msg.from
      → msg'.chat ≡ msg.chat
      → mem'.live ≡ owned_entities msg' ++ mem.live
      → mem'.refs ≡ mem.refs
      → Arranged msg mem out
  refused :
      (ret : ℤ) (msg' : TgMessage) (mem' : Memory)
      → out ≡ (ret, msg', mem')
      → is_zero ret ≡ false
      → msg'.from ≡ msg.from
      → msg'.chat ≡ msg.chat
      → msg'.entities ≡ none
      → mem'.live ≡ mem.live
      → mem'.refs ≡ mem.refs
      → Arranged msg mem out

pub malloc_found :
    (mem : Memory)
    → mem.found mem.calls ≡ true
    → malloc mem
      ≡ (some (mem.calls), record mem { calls = mem.calls + 1; live = mem.calls ∷ mem.live })
unfolding malloc
malloc_found mem h = ground arith

malloc_full :
    (mem : Memory)
    → mem.found mem.calls ≡ false
    → malloc mem ≡ (none, record mem { calls = mem.calls + 1 })
unfolding malloc
malloc_full mem h = ground arith

pub fill_box-Boxed :
    {A : Type 0} (made : ℤ × A) (mem : Memory) → Boxed mem (fill_box made (malloc mem))
unfolding fill_box free
fill_box-Boxed made mem = elim (Bool-cases (mem.found mem.calls)) [
  | inr full ↦
      missed enomem (record mem { calls = mem.calls + 1 })
        (ap (fill_box made) (malloc_full mem full)) refl refl refl
  | inl found ↦ elim (Bool-cases (is_zero made.0)) [
    | inl ok ↦
        boxed (made.1) (record mem { calls = mem.calls + 1; live = mem.calls ∷ mem.live })
          (ap (fill_box made) (malloc_found mem found) ∙ rw ok refl) refl refl refl
    | inr bad ↦
        missed (made.0)
          (record mem { calls = mem.calls + 1; live = remove mem.calls (mem.calls ∷ mem.live) })
          (ap (fill_box made) (malloc_found mem found) ∙ rw bad refl) bad (ground arith) refl
  ]
]

neg_not_zero : (ret : ℤ) → is_neg ret ≡ true → is_zero ret ≡ false
neg_not_zero (pos n) h = absurd (cc)
neg_not_zero (negsuc n) h = refl

pub fill_entities-Arranged :
    (msg : TgMessage) (ret : ℤ) (mem : Memory)
    → msg.type ≡ tg_msg_text
    → msg.entities ≡ none
    → Arranged msg mem (with_entities msg (fill_entities ret (malloc mem)))
unfolding with_entities fill_entities free
fill_entities-Arranged msg ret mem text empty = elim (Bool-cases (mem.found mem.calls)) [
  | inr full ↦
      refused enomem msg (record mem { calls = mem.calls + 1 })
        (ap (λ m. with_entities msg (fill_entities ret m)) (malloc_full mem full)) refl refl refl
        empty refl refl
  | inl found ↦
      let taken = ap (λ m. with_entities msg (fill_entities ret m)) (malloc_found mem found) in
      elim (Bool-cases (is_neg ret)) [
        | inl bad ↦
            refused ret msg
              (record mem { calls = mem.calls + 1; live = remove mem.calls (mem.calls ∷ mem.live) })
              (taken ∙ rw bad (rw bad refl)) (neg_not_zero ret bad) refl refl empty (ground arith)
              refl
        | inr good ↦
            arranged (record msg { entities = some (mem.calls); entities_len = size_of_int ret })
              (record mem { calls = mem.calls + 1; live = mem.calls ∷ mem.live })
              (taken ∙ rw good (rw good refl)) refl refl (rw text refl) refl
      ]
]

pub err_free_from_lem :
    (ret : ℤ) (msg : TgMessage) (mem : Memory) (from : Box TgUser) (rest : List ℕ)
    → msg.from ≡ some from
    → mem.live ≡ from.at ∷ rest
    → err_free_from ret msg mem ≡ (ret, record msg { from = none }, record mem { live = rest })
unfolding err_free_from free_opt free
err_free_from_lem ret msg mem from rest f live =
    let gone : remove from.at (from.at ∷ rest) ≡ rest = ground arith in rw (f, live, gone) refl

pub err_free_chat_lem :
    (ret : ℤ) (msg : TgMessage) (mem : Memory) (from : Box TgUser) (chat : Box TgChat)
    (rest : List ℕ)
    → msg.from ≡ some from
    → msg.chat ≡ some chat
    → mem.live ≡ chat.at ∷ from.at ∷ rest
    → err_free_chat ret msg mem
      ≡ (ret, record msg { from = none; chat = none }, record mem { live = rest })
unfolding err_free_chat free_opt free
err_free_chat_lem ret msg mem from chat rest f c live =
    let gone : remove chat.at (chat.at ∷ from.at ∷ rest) ≡ from.at ∷ rest = ground arith in
    rw (c, live, gone)
      (err_free_from_lem ret (record msg { chat = none }) (record mem { live = from.at ∷ rest })
        from rest f refl)
