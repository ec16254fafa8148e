-- ===== src/LogStore/Query/Cursor/Examples.antt =====
-- Cursors tried out.
use casa_os_app_management.Prelude.{◌+◌, ◌-◌, ◌≡◌, refl, arith, codes}
use casa_os_app_management.Prelude.{decimal}
use casa_os_app_management.LogStore.Query.Cursor.{
  Cursor, ok, err, bad_cursor, unix_epoch, cursor_text, is_inside, parse_cursor, format_int,
}
use casa_os_app_management.LogStore.Query.Cursor.Laws.{
  IsSound, parse_cursor-cursor_text, parse_cursor_lem,
}

-- before 1970, at an offset in a file whose name has a colon
abbrev early : Cursor
early = record { at = unix_epoch - 1500; file = codes "a/b/x:y.log"; seq = 42 }

cursor_text_test : cursor_text early ≡ codes "-1500:42:a/b/x:y.log"
unfolding cursor_text format_int decimal
cursor_text_test = refl

parse_cursor_test :
    (parse_cursor (codes "+7:007:a/../b") ≡ err bad_cursor)
    × ((parse_cursor (codes "1:-1:a") ≡ err bad_cursor)
        × (parse_cursor (codes "1:2") ≡ err bad_cursor))
unfolding parse_cursor
parse_cursor_test = (refl, (refl, refl))

parse_cursor-cursor_text_example : parse_cursor (cursor_text early) ≡ ok early
unfolding is_inside
parse_cursor-cursor_text_example = parse_cursor-cursor_text early (omega arith) (omega arith) refl

-- a cursor with signs and zeros in front
abbrev read_cursor : Cursor
read_cursor = record { at = unix_epoch + 7; file = codes "a/b"; seq = 7 }

parse_cursor_lem_example :
    IsSound read_cursor × (parse_cursor (cursor_text read_cursor) ≡ ok read_cursor)
unfolding parse_cursor
parse_cursor_lem_example = parse_cursor_lem (codes "+7:007:a/b") read_cursor refl
