-- ===== src/Print.antt =====
-- core/print.c: the lines that the program prints. vsnprintf is a parameter: what it returns, the
-- characters that it leaves in a buffer of a size, and the va_list as it leaves it, from which a second
-- call of it reads on.
pub mod Whole
mod Tests
use Prim.Native.String.{String}
use gnuweeb_bot.Common.{
  ℕ, ◌+◌, ◌-◌, ◌%◌, ◌^◌, Bool, true, false, List, [], ◌∷◌, ◌==◌, leb, if◌then◌else◌,
}
use gnuweeb_bot.Common.Int.{ℤ, pos, negsuc}
use gnuweeb_bot.Common.Cast.{int_of_size}

-- A printed line, without the brackets: the time, the kind, and the text.
pub record Line : Type 0 where
  pub time : List ℕ
  pub kind : String
  pub text : List ℕ

-- The conversion of an `int` to `size_t`.
abbrev pub size_of_ret : ℤ → ℕ
size_of_ret (pos n) = n
size_of_ret (negsuc n) = 2 ^ 64 - 1 - n

-- `PR_INFO`, `PR_ERROR`, `PR_DEBUG` and `PR_WARN` are 0 to 3.
abbrev pub get_print_type : ℕ → String
get_print_type type =
    if type == 0
    then "INFO"
    else if type == 1
    then "ERROR"
    else if type == 2
    then "DEBUG"
    else if type == 3
    then "WARN"
    else "UNKNOWN"

-- What alloc_print_buf leaves: `*ret_p`, the text of the buffer, `*need_free`, and the number of
-- blocks in use.
pub record PrintBuf : Type 0 where
  pub ret : ℤ
  pub text : List ℕ
  pub need_free : Bool
  pub blocks : ℕ

-- `V` is a state of the va_list. `found` says whether `malloc` succeeds.
module _ {V : Type 0} (vsnprintf : V → ℕ → ℤ × List ℕ × V) (found : Bool) where
  unfoldable pub alloc_print_buf : (prebuf_size : ℕ) (va : V) (blocks : ℕ) → PrintBuf
  alloc_print_buf prebuf_size va blocks =
      let (len, text, va') = vsnprintf va prebuf_size in
      let ret = size_of_ret len in
      if leb prebuf_size ret
      then (if found
          then record {
            ret = int_of_size ret;
            text = (vsnprintf va' ((ret + 1) % 2 ^ 64)).1;
            need_free = true;
            blocks = blocks + 1;
          }
          else record { ret = int_of_size ret; text = text; need_free = false; blocks = blocks })
      else record { ret = int_of_size ret; text = text; need_free = false; blocks = blocks }

  -- `__gw_print`, with the va_list that `va_start` gives: the result, the line, and the number of
  -- blocks in use.
  unfoldable pub gw_print : (type : ℕ) (va : V) (time : List ℕ) (blocks : ℕ) → ℤ × Line × ℕ
  unfolding alloc_print_buf
  gw_print type va time blocks =
      let buf = alloc_print_buf 8192 va blocks in
      (
        buf.ret,
        record { time = time; kind = get_print_type type; text = buf.text },
        if buf.need_free then buf.blocks - 1 else buf.blocks,
      )
