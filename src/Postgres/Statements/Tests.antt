-- ===== src/Postgres/Statements/Tests.antt =====
-- The probe and the version on concrete answers.
use pgsleuth.Base.{parse_u32, ◌≡◌, refl, true, false, some, ok, err}
use pgsleuth.Postgres.Statements.{extension_missing, pg_version_too_old, major, probe}

version_17 : major (some "170002") ≡ ok 17
unfolding major parse_u32
version_17 = refl

not_a_version : major (some "x") ≡ err "server_version_num=\"x\" did not parse"
unfolding major parse_u32
not_a_version = refl

too_old : probe (ok 12) true ≡ ok (pg_version_too_old 12)
unfolding probe
too_old = refl

-- A query that fails for any reason counts as a missing extension.
no_row : probe (ok 13) false ≡ ok extension_missing
unfolding probe
no_row = refl
