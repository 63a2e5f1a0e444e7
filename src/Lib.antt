-- ===== src/Lib.antt =====
-- nginx-auth-webauthn: an nginx module that signs users in with WebAuthn credentials, and the tool that manages them.
--
-- A sign-in is two requests. The challenge handler issues a random challenge and stores it in Redis; the verify handler takes
-- it back (once), reads the credential's record from Redis, verifies the assertion against it, and stores the new counter. The
-- admin tool verifies an attestation and stores the credential. The parts, and the files that model them:
--
--   src/ngx_auth_webauthn_authdata.c     Authdata: `parse`, with the two halves `prefix` and `attested`; Authdata/Layout has an
--                                        encoder of the format, Authdata/Sound and Authdata/Reject the converses
--   src/ngx_auth_webauthn_clientdata.c   Clientdata: `get_string`, `allowed`, `is_cross_origin`, `verify`
--   src/ngx_auth_webauthn_hash.c         Hash: `hash_sha256`
--   src/ngx_auth_webauthn_assertion.c    Assertion: `check_counter`, `check_signature`, `assertion_verify`
--   src/ngx_auth_webauthn_cose.c         Cose: `cose_int`, `cose_bytes`, the three kinds of key, `cose_to_pkey`, `cose_to_der`
--   src/ngx_auth_webauthn_attestation.c  Attestation: `attestation_parse`, `parse_stmt`, `verify_packed`, `attestation_verify`
--   src/ngx_auth_webauthn_redis.c        Redis: one function for each command; Redis/Reading has the readers of replies, and
--                                        the statements of the Lua script, which Redis/Script prints and
--                                        runs; Redis/Laws, Values, Lasting and Counter have what the program
--                                        relies on of a server: who makes a string key, the hashes and sets,
--                                        how long a key lasts, and the commands of counters
--   src/ngx_auth_webauthn_challenge.c    Challenge: `challenge_issue`, `challenge_consume`; Challenge/SingleUse has the requests
--                                        that share a server, as steps, and Challenge/Lasting how long
--                                        a challenge is accepted among them
--   src/ngx_auth_webauthn_credential.c   Credential: `credential_get`, `credential_put`, `credential_update_counter`,
--                                        `credential_delete`; Credential/Number and Credential/Fields have the parts,
--                                        Credential/Numeral, Record, Stored and AnyOrder the proofs;
--                                        Credential/Abstract has the map that the records stand for, and
--                                        Credential/Refine the calls on both, with the proofs in Steps and Run
--   src/ngx_http_auth_webauthn_module.c  Http/Escape: `json_escape`; Http/RateLimit: `rate_limit`, with Quota for many requests; Http/Gate: the access
--                                        phase, from `build_jwks` to `access_handler`; Http/Variable: `variable`;
--                                        Http/Issue: the challenge handler; Http/Verify: the
--                                        verify handler, with what it reads (Body) and what it answers (Mint); Http/Response:
--                                        `send_json`; Http/Conf: the configuration of a location, with its key (Key), the
--                                        directives (Directives, and Table for all of them, with Bounded and
--                                        KeyPair on what they lead to) and merging (Merge);
--                                        Http/Service: both handlers on one server; Http/Bounds: the buffers that
--                                        the handlers fill
--   tools/admin/ngx_compat/ngx_compat.c  Compat/Base64, Compat/Pool and Compat/Log
--   tools/admin/auth_webauthn_admin_register.c   Admin: `cmd_register`, with `prepare` and `store`
--   tools/admin/auth_webauthn_admin_main.c       Admin/Options: the common options, and how a command reads its own;
--                                        Admin/Source: `admin_read_file`; Admin/Main: `main`
--   tools/admin/auth_webauthn_admin_list.c, _show.c, _revoke.c   Admin/Manage and Admin/Hex; Admin/Told has the proofs
--   the keys of all of them              Keys
--
-- Conventions. A byte string is a list of numbers; a pointer with a length is the bytes that it shows. NGX_OK, NGX_DECLINED and
-- NGX_ERROR are the constructors of Base/Rc, and an out-parameter is the value of `ok`. A NULL argument cannot be written, so
-- the guards against it have no counterpart. Memory of the pool is a parameter: `pnalloc n` says whether n bytes are
-- available, and the NULL branch is modelled. Machine words are numbers with their wrap-around written out (Base/Word). nginx
-- core, nxe_json, nxe_jwx, libcbor, OpenSSL and hiredis are records of operations (Platform), arguments of what uses them. A Redis
-- server is a state that each command changes; a request is a function of the client handle, and a run of the service is a list
-- of requests, each on a connection of its own.
--
-- Loops are recursion on the list that they walk. The digits of a number use fuel: 20 rounds, enough for every 64-bit
-- number (Credential/Numeral, `decimal_lem`). The loop that reads a file has 11 rounds, enough for every file: the buffer
-- is doubled eight times at most (Admin/Source/Whole, `read_source_lem`).
--
-- Not modelled: timeouts, and the freeing of memory (but for the pool of the admin tool); logging, but for the formats that
-- the admin tool rewrites; nginx's own slot functions, and its checks of where a directive stands and how many arguments
-- it has; that nginx reads the body before the verify handler goes on; getopt_long, and the layout of what the admin
-- tool prints, where a time is its number; tests and examples. In Http/Service a handler runs to its end before the next
-- request; Challenge/SingleUse and Challenge/Lasting have the single commands of any number of requests in any order. In Challenge/Lasting
-- time passes only between requests, in whole seconds; in Http/RateLimit/Quota it does not pass. EVAL is relied on for the one text
-- that the client sends: that the server runs the statements which spell it (Redis/Script, `run_script`).
pub mod Base
pub mod Platform
pub mod Authdata
pub mod Clientdata
pub mod Hash
pub mod Assertion
pub mod Cose
pub mod Redis
pub mod Keys
pub mod Challenge
pub mod Compat
pub mod Admin
pub mod Credential
pub mod Attestation
pub mod Http
pub mod Tests
