-- ===== src/Interp/Load/Tables.antt =====
-- interp/load.go and interp/test.go: the tables of extensions and of address headers, and the tests that are outside the model.

use go_sieve.Prelude.{List, [], ◌∷◌, Bytes, codes}

-- `allowedAddrHeaders`
unfoldable pub allowed_addr_headers : List Bytes
allowed_addr_headers =
    codes "from"
    ∷ codes "to"
    ∷ codes "cc"
    ∷ codes "bcc"
    ∷ codes "sender"
    ∷ codes "resent-from"
    ∷ codes "resent-to"
    ∷ codes "reply-to"
    ∷ codes "resent-reply-to"
    ∷ codes "resent-sender"
    ∷ codes "resent-cc"
    ∷ codes "resent-bcc"
    ∷ codes "for-approval"
    ∷ codes "for-handling"
    ∷ codes "for-comment"
    ∷ codes "apparently-to"
    ∷ codes "errors-to"
    ∷ codes "delivered-to"
    ∷ codes "return-receipt-to"
    ∷ codes "x-admin"
    ∷ codes "read-receipt-to"
    ∷ codes "x-confirm-reading-to"
    ∷ codes "return-receipt-requested"
    ∷ codes "registered-mail-reply-requested-by"
    ∷ codes "mail-followup-to"
    ∷ codes "mail-reply-to"
    ∷ codes "abuse-reports-to"
    ∷ codes "x-complaints-to"
    ∷ codes "x-report-abuse-to"
    ∷ codes "x-beenthere"
    ∷ codes "x-original-from"
    ∷ codes "x-original-to"
    ∷ []

-- `supportedRequires`
unfoldable pub supported_requires : List Bytes
supported_requires =
    codes "fileinto"
    ∷ codes "envelope"
    ∷ codes "encoded-character"
    ∷ codes "comparator-i;octet"
    ∷ codes "comparator-i;ascii-casemap"
    ∷ codes "comparator-i;ascii-numeric"
    ∷ codes "comparator-i;unicode-casemap"
    ∷ codes "imap4flags"
    ∷ codes "variables"
    ∷ codes "relational"
    ∷ codes "copy"
    ∷ codes "reject"
    ∷ codes "ereject"
    ∷ codes "subaddress"
    ∷ codes "environment"
    ∷ codes "body"
    ∷ codes "vacation"
    ∷ codes "regex"
    ∷ codes "date"
    ∷ codes "index"
    ∷ codes "editheader"
    ∷ codes "mailbox"
    ∷ codes "duplicate"
    ∷ codes "ihave"
    ∷ codes "special-use"
    ∷ codes "mailboxid"
    ∷ codes "imapsieve"
    ∷ codes "imapflags"
    ∷ codes "fcc"
    ∷ codes "vacation-seconds"
    ∷ codes "include"
    ∷ codes "extlists"
    ∷ codes "enotify"
    ∷ codes "spamtest"
    ∷ codes "spamtestplus"
    ∷ codes "virustest"
    ∷ codes "mboxmetadata"
    ∷ codes "servermetadata"
    ∷ codes "foreverypart"
    ∷ codes "mime"
    ∷ codes "extracttext"
    ∷ codes "replace"
    ∷ codes "enclose"
    ∷ codes "vnd.yarilo.debug"
    ∷ codes "vnd.yarilo.environment"
    ∷ codes "vnd.yarilo.pipe"
    ∷ codes "vnd.yarilo.filter"
    ∷ codes "vnd.yarilo.execute"
    ∷ codes "vnd.yarilo.report"
    ∷ []

-- The tests of the table that are outside the model.
unfoldable pub other_tests : List Bytes
other_tests =
    codes "body"
    ∷ codes "date"
    ∷ codes "currentdate"
    ∷ codes "mailboxexists"
    ∷ codes "duplicate"
    ∷ codes "specialuse_exists"
    ∷ codes "mailboxidexists"
    ∷ codes "valid_ext_list"
    ∷ codes "valid_notify_method"
    ∷ codes "notify_method_capability"
    ∷ codes "spamtest"
    ∷ codes "virustest"
    ∷ codes "metadata"
    ∷ codes "metadataexists"
    ∷ codes "servermetadata"
    ∷ codes "servermetadataexists"
    ∷ codes "filter"
    ∷ codes "execute"
    ∷ codes "test_script_compile"
    ∷ codes "test_script_run"
    ∷ codes "test_error"
    ∷ codes "test_message"
    ∷ codes "test_result_action"
    ∷ codes "test_result_execute"
    ∷ []
