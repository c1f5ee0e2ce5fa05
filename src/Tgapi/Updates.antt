-- ===== src/Tgapi/Updates.antt =====
-- Which updates tgapi_parse_updates_len_max (lib/tgapi.c) keeps, and what it leaves.
use mathlib.Core.Path.{subst}
use gnuweeb_bot.Common.{
  ℕ, zero, suc, ◌+◌, ◌≤◌, ◌≡◌, refl, ap, ◌∙◌, inl, inr, Bool, true, false, Option, none, some, List,
  [], ◌∷◌, ◌++◌, if◌then◌else◌, arith, Bool-cases, length, length-append, get_elem?-behind,
  set-behind, append_assoc,
}
use gnuweeb_bot.Common.Int.{ℤ, pos, negsuc, is_zero}
use gnuweeb_bot.Tgapi.{JsonC, TgUpdate}
use gnuweeb_bot.Tgapi.Memory.{Memory, json_object_get}
use gnuweeb_bot.Tgapi.Object.{tgj_get_update, with_message}
use gnuweeb_bot.Tgapi.Parse.{parse_items}

module _ {J : Type 0} (json : JsonC J) where
  -- The items from `i` on, `n` of them, up to the first NULL.
  abbrev pub items_from : (n : ℕ) → J → (i : ℕ) → List J
  items_from zero result i = []
  items_from (suc n) result i =
      if json.is_null (json.json_object_array_get_idx result i)
      then []
      else json.json_object_array_get_idx result i ∷ items_from n result (i + 1)

  abbrev pub has_null : (n : ℕ) → J → (i : ℕ) → Bool
  has_null zero result i = false
  has_null (suc n) result i =
      if json.is_null (json.json_object_array_get_idx result i)
      then true
      else has_null n result (i + 1)

  -- What becomes of the items, one after the other, from some slots and memory: an item that can be
  -- parsed takes the first slot, and a reference to it is taken; one that cannot be parsed leaves the
  -- slot, as it is by then, to the next. Beside the updates of the items that were parsed, in order,
  -- stand the slots that are left and the memory after all.
  pub data Kept
      : List (TgUpdate J)
        → Memory
        → List J
        → List (TgUpdate J)
        → List (TgUpdate J)
        → Memory
        → Type 0 where
    nothing : {slots : List (TgUpdate J)} {mem : Memory} → Kept slots mem [] [] slots mem
    kept :
        {slots updates rest : List (TgUpdate J)} {items : List J} {mem mem' : Memory} (item : J)
        (slot update : TgUpdate J) (mem1 : Memory)
        → tgj_get_update json slot item mem ≡ (pos 0, update, mem1)
        → Kept slots (json_object_get (json.address item) mem1) items updates rest mem'
        → Kept (slot ∷ slots) mem (item ∷ items) (update ∷ updates) rest mem'
    left_out :
        {slots updates rest : List (TgUpdate J)} {items : List J} {mem mem' : Memory} (item : J)
        (slot update : TgUpdate J) (mem1 : Memory) (ret : ℤ)
        → tgj_get_update json slot item mem ≡ (ret, update, mem1)
        → is_zero ret ≡ false
        → Kept (update ∷ slots) mem1 items updates rest mem'
        → Kept (slot ∷ slots) mem (item ∷ items) updates rest mem'

  abbrev pub NoJson : List (TgUpdate J) → Type 0
  NoJson [] = Unit
  NoJson (update ∷ updates) = (update.json ≡ none) × NoJson updates

  -- What the loop leaves, after the updates that were there.
  pub record Looked (slots : List (TgUpdate J)) (mem : Memory) (items : List J)
      (before : List (TgUpdate J)) (null : Bool)
      (out : Option (Bool × ℕ × List (TgUpdate J) × Memory)) : Type 0 where
    pub updates : List (TgUpdate J)
    pub rest : List (TgUpdate J)
    pub mem' : Memory
    pub runs : out ≡ some (null, length before + length updates, before ++ (updates ++ rest), mem')
    pub parsed : Kept slots mem items updates rest mem'
    pub sized : length updates + length rest ≡ length slots
    pub no_json : NoJson updates × NoJson rest

  pub same_json :
      (update update' : TgUpdate J) (item : J) (mem mem' : Memory) (ret : ℤ)
      → tgj_get_update json update item mem ≡ (ret, update', mem')
      → update'.json ≡ update.json
  unfolding tgj_get_update with_message
  same_json update update' item mem mem' ret e = ground arith

  stays :
      (null : Bool) (before rest : List (TgUpdate J)) (mem : Memory)
      → NoJson rest
      → Looked rest mem [] before null (some (null, length before, before ++ rest, mem))
  stays null before rest mem none_set =
      let number : length before ≡ length before + 0 = omega arith in
      record {
        updates = [];
        rest = rest;
        mem' = mem;
        runs = ap (λ (k : ℕ). some (null, k, before ++ rest, mem)) number;
        parsed = nothing;
        sized = omega arith;
        no_json = (tt, none_set);
      }

  takes :
      {slots : List (TgUpdate J)} {items : List J} {before : List (TgUpdate J)} {null : Bool}
      {out : Option (Bool × ℕ × List (TgUpdate J) × Memory)} (item : J) (slot update : TgUpdate J)
      (mem mem1 : Memory)
      → tgj_get_update json slot item mem ≡ (pos 0, update, mem1)
      → update.json ≡ none
      → Looked slots
          (json_object_get (json.address item) mem1)
          items
          (before ++ update ∷ [])
          null
          out
      → Looked (slot ∷ slots) mem (item ∷ items) before null out
  takes {before} {null} item slot update mem mem1 e no_obj l =
      let number : length (before ++ update ∷ []) + length l.updates
          ≡ length before + suc (length l.updates) =
        omega (arith, length-append before (update ∷ [])) in
      record {
        updates = update ∷ l.updates;
        rest = l.rest;
        mem' = l.mem';
        runs =
            l.runs
            ∙ ap
                (λ (k : ℕ).
                  some (null, k, (before ++ update ∷ []) ++ (l.updates ++ l.rest), l.mem'))
                number
            ∙ ap
                (λ (t : List (TgUpdate J)).
                  some (null, length before + suc (length l.updates), t, l.mem'))
                (append_assoc before (update ∷ []) (l.updates ++ l.rest));
        parsed = kept item slot update mem1 e l.parsed;
        sized = omega (arith, l.sized);
        no_json = ((no_obj, l.no_json.0), l.no_json.1);
      }

  leaves :
      {slots : List (TgUpdate J)} {items : List J} {before : List (TgUpdate J)} {null : Bool}
      {out : Option (Bool × ℕ × List (TgUpdate J) × Memory)} (item : J) (slot update : TgUpdate J)
      (mem mem1 : Memory) (ret : ℤ)
      → tgj_get_update json slot item mem ≡ (ret, update, mem1)
      → is_zero ret ≡ false
      → Looked (update ∷ slots) mem1 items before null out
      → Looked (slot ∷ slots) mem (item ∷ items) before null out
  leaves item slot update mem mem1 ret e bad l = record {
    updates = l.updates;
    rest = l.rest;
    mem' = l.mem';
    runs = l.runs;
    parsed = left_out item slot update mem1 ret e bad l.parsed;
    sized = l.sized;
    no_json = l.no_json;
  }

  zero_status : (ret : ℤ) → is_zero ret ≡ true → ret ≡ pos 0
  zero_status (pos zero) h = refl
  zero_status (pos (suc n)) h = absurd (ground arith)
  zero_status (negsuc n) h = absurd (ground arith)

  pub parse_items-Looked :
      (n : ℕ) (result : J) (i : ℕ) (before rest : List (TgUpdate J)) (mem : Memory)
      → n ≤ length rest
      → NoJson rest
      → Looked rest mem
          (items_from n result i)
          before
          (has_null n result i)
          (parse_items json n result i (length before) (before ++ rest) mem)
  unfolding parse_items
  parse_items-Looked zero result i before rest mem room none_set =
      stays false before rest mem none_set
  parse_items-Looked (suc n) result i before [] mem room none_set = absurd (omega arith)
  parse_items-Looked (suc n) result i before (slot ∷ rest) mem room none_set =
      let item = json.json_object_array_get_idx result i in
      let got = tgj_get_update json slot item mem in
      let no_obj : got.1.json ≡ none =
        same_json slot got.1 item mem got.2 got.0 refl ∙ none_set.0 in
      elim (Bool-cases (json.is_null item)) [
        | inl null ↦ rw null (stays true before (slot ∷ rest) mem none_set)
        | inr real ↦ elim (Bool-cases (is_zero got.0)) [
          | inl ok ↦
              let m : Memory = json_object_get (json.address item) got.2 in
              let end : length (before ++ got.1 ∷ []) ≡ length before + 1 =
                omega (arith, length-append before (got.1 ∷ [])) in
              let ih =
                parse_items-Looked n result (i + 1) (before ++ got.1 ∷ []) rest m (omega arith)
                  none_set.1 in
              let ih' =
                subst
                  (λ (k : ℕ).
                    Looked rest m (items_from n result (i + 1)) (before ++ got.1 ∷ [])
                      (has_null n result (i + 1))
                      (parse_items json n result (i + 1) k (before ++ got.1 ∷ rest) m))
                  end
                  (subst
                    (λ (t : List (TgUpdate J)).
                      Looked rest m (items_from n result (i + 1)) (before ++ got.1 ∷ [])
                        (has_null n result (i + 1))
                        (parse_items json n result (i + 1) (length (before ++ got.1 ∷ [])) t m))
                    (append_assoc before (got.1 ∷ []) rest) ih) in
              rw (real, get_elem?-behind before rest slot, ok, set-behind before rest slot got.1)
                (takes item slot got.1 mem got.2
                  (ap (λ (r : ℤ). (r, got.1, got.2)) (zero_status got.0 ok)) no_obj ih')
          | inr bad ↦
              rw (real, get_elem?-behind before rest slot, bad, set-behind before rest slot got.1)
                (leaves item slot got.1 mem got.2 got.0 refl bad (
                  parse_items-Looked n result (i + 1) before (got.1 ∷ rest) got.2 (omega arith)
                    (no_obj, none_set.1)))
        ]
      ]
