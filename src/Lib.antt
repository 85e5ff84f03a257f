-- ===== src/Lib.antt =====
-- Models of the Bitwarden panel for DankMaterialShell, in its JavaScript part: BitwardenModel.js, the
-- library of pure functions and reducers that the QML service (Service.qml) and panel (Panel.qml)
-- call. The service keeps the state, runs the processes and feeds their output to these functions;
-- the functions decide what happens. Each function is translated by clauses, a reducer as a function
-- from state and event to state and action, and shared state as a value passed on.
--
-- Common: numbers, lists, integers and texts; a text is its list of UTF-16 code units, so `length`,
--   `slice` and the regular expressions of the source count what JavaScript counts.
-- Js: JavaScript's numbers (Js/Numbers), values with property lookup, truthiness and conversions
--   (Js/Values) and `JSON.stringify` (Js/Json). A number is NaN, an infinity, or a decimal with its
--   integer part; `JSON.parse` is a parameter, a function from texts to optional values, of what
--   reads JSON. The models use nothing of it but that it may fail; the round trip of the account
--   registry supposes that it undoes `JSON.stringify` there.
-- Agent: the supervision of the SSH companion, a separate program that signs for SSH clients.
--   Agent/Protocol is `utf8ByteLength` and `parseAgentEvent`; Agent/Lines the control lines
--   (`agentControlLine` and the functions that call it); Agent/Supervisor is `sshAgentReduce` with
--   `sshAgentFailMidRun`, `sshAgentFailOnExit` and `sshAgentRestartDelayMs`, where
--   Agent/Supervisor/Contract is what it promises, as a step relation; Agent/Lifecycle is
--   `sshAgentVaultState`, `sshAgentLifecycleTransition` and `sshAgentSetupState`; Agent/VisibleText
--   and Agent/Prompts are what a prompt shows (`visibleText` to `sshAgentSameRequest`);
--   Agent/Queue, Agent/Grants and Agent/Cooldown are the prompt queue, the grant views and the
--   cooldown after refusals. The service passes each line of the companion to the reducer, a message
--   that comes out to the queue, and the user's answer to the cooldown and the control lines.
-- Accounts: the slots, which name a keyring entry and a data directory each (Accounts), and the
--   registry of accounts (Accounts/Registry, `parseAccountRegistry` to `registrySetActive`, and
--   Accounts/Selection, `newAccountSlot`, `slotForNewAccount` and `registryNextAccount`).
-- Sites: hosts and words: the tables of names (Sites/Names), and what `parseHost`, `parseDomain`,
--   `detectDomainInText`, `extractTokens` and `hasWholeWord` read of an address or a title (Sites,
--   Sites/Hosts).
-- Associations: the suggestions that the panel learns: the store and the check of its file
--   (`associationKeyWeight` to `parseAssociations`), a pick, the write budget and forgetting
--   (Associations/Store, `contextKeys` to `forgetAssociation`) and what is suggested
--   (Associations/Matches, `isAssociated` and `learnedMatchIds`). An object used as a map is the
--   list of its properties in the order of their insertion; where the ranks are looked up in such an
--   object, the names that it inherits are told apart (`names_inherited`).
-- Windows: the focused window (`getActiveWindowFromData`), the cleaning of its title
--   (Windows/Titles, `stripTitleNoise` to `splitSegments`, with regular expressions as
--   Windows/Patterns matches them), and the context of suggestions that it gives (Windows/Context,
--   `windowIdentity` and `cleanWindowContext`), from which Associations and Suggestions start.
-- Suggestions: the scores of an item for a window and the items that are suggested
--   (`directDomainScore` to `findContextualMatches`), which join the learned ones of Associations with
--   those of the highest scores.
-- Settings: the settings' schema and the reading and writing of their values (`SETTINGS_SCHEMA`,
--   `intSetting`, `boolSetting`, `settingWriteValue`); Settings/Screen the rows of the screen
--   (`groupedSettings` to `groupLabelFor`).
-- Generator: the options of the password generator (`normalizeGeneratorOptions`, `generatorParams`,
--   `generateCommand`).
-- Items: search and filters of the item list (`matchesQuery` to `filterItems`) and the splice of a
--   saved item (`replaceItemById`). Lower case and the locale's order of names are parameters, any
--   functions, of what uses them.
-- Clocks: deadlines: stale reads, the windows of a second factor and of a handoff, the auto-lock
--   (`vaultReadIsStale`, `windowOpen`, `autoLockPollMs`, `autoLockExpired`, `vaultHostDecision`).
-- Servers: server addresses, session keys and the screen lock (`validateServerUrl`,
--   `loginServerUrlFor`, `accountServerLabel`, `extractSessionToken`, `screenIsLocked`).
-- Versions: the CLI's releases and the probe of the tools (`probeFields` to
--   `vaultListFailureMessage`).
-- Forms: what an item form sends: its check and its values (Forms, `toList`, `validateItemForm`,
--   `selectedOrganizationId` to `updateIdentityFields`), websites, custom fields and the payload of a
--   create (Forms/Payloads) and that of an edit (Forms/Edits). Stored items are dynamic values.
-- Vault: from the vault helper's JSON to the rows of the list: attachments and websites (Vault),
--   cards, identities and custom fields (Vault/Details), `parseItems` and `parseSshKeys`
--   (Vault/Rows), the sanitized document and the splice of a saved item (Vault/Envelope), and the
--   detail of an item with and without its secrets (Vault/Public). Items,
--   Suggestions and Forms work on what comes out of it.
-- Totp: TotpModel.js. Totp is the base32 reader, `parseU32`, `padMessage` and the code that
--   `deriveOtp` makes of a hash; Totp/Words, Totp/Sha1 and Totp/Sha256 are the hashes on 32-bit
--   words, Totp/Derive is `hmac` and `deriveOtp`, Totp/Otpauth the reader of keys (`parseKey`,
--   `parseOtpauth`, `formDecode`) and Totp/Generated `generate`.
-- TwoFactor: the two-step method remembered for an account (`twoFactorAccountKey` to
--   `forgetTwoFactorMethodIn`).
-- Fido: the report of the probe for security keys (FidoModel.js, `parseFidoProbe`).
-- Sends: the lists of organizations, folders, collections and sends, and the labels of a send.
-- Files: the names of saved attachments and exported public keys (`safeAttachmentFileName`,
--   `sshExportFileName`, `sshExportIdentities`), and the directory of the helpers.
-- Shell: the quoting of arguments and the capped command of bw (`shellQuote`, `buildCappedCommand`);
--   Shell/Reading is how a shell reads the words of such a command.
-- Scrub: the queue of processes whose output is emptied after a lock (`scrubPass`, `finishScrub`).
-- Examples: runs of the models on concrete data.
--
-- Bounds: times, counts and ids are natural numbers, since the service passes `Date.now()` and
-- counters; a number read from a message keeps all of JavaScript's cases. The fuel of `decimal` is
-- one more than the number, and a number has no more digits than that. The 32 draws of
-- `newAccountSlot` are the source's own bound; 63 zeros are the most that a padding takes; the
-- digits drawn are a parameter, below 16. A star and a split of the pattern matcher have one turn of
-- fuel for each unit that is left, and more gives the same (Windows/Fuel).
--
-- Not modelled: the other functions that assemble fixed shell text, the QML interface and its timers,
-- the Rust programs (agent, vault, unlock-key), and the other parts of BitwardenModel.js: the payload
-- of a new send, the strength meter, the inspection of helper programs and the login's messages.
pub mod Common
pub mod Js
pub mod Agent
pub mod Accounts
pub mod Associations
pub mod Sites
pub mod Windows
pub mod Suggestions
pub mod Settings
pub mod Generator
pub mod Items
pub mod Clocks
pub mod Servers
pub mod Versions
pub mod Forms
pub mod Vault
pub mod Totp
pub mod TwoFactor
pub mod Fido
pub mod Sends
pub mod Files
pub mod Shell
pub mod Scrub
pub mod Examples
