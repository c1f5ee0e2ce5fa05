-- ===== src/Modules/Parsed.antt =====
-- The ping module (modules/ping/ping.c) on an update that lib/tgapi.c has parsed.
use gnuweeb_bot.Common.{◌≡◌, ◌≢◌, true, some, bit_and}
use gnuweeb_bot.Common.Int.{ℤ, is_zero}
use gnuweeb_bot.Tgapi.{Box, TgChat, TgUpdate, tg_update_message}
use gnuweeb_bot.Tgapi.Memory.{Memory}

-- What a parsed update says of its chat: it is no message, or it has one.
abbrev HasChat : {J : Type 0} → ℤ × TgUpdate J × Memory → Type 0
HasChat out =
    is_zero out.0 ≡ true
    → bit_and out.1.type tg_update_message ≢ 0
    → (chat : Box TgChat) × (out.1.message.chat ≡ some chat)
