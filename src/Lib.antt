-- ===== src/Lib.antt =====
-- receiptd is a print server: clients submit receipts, documents of typed elements, which it
-- validates, stores as jobs, and prints on networked ESC/POS printers, with retries.
--
-- Parts, by file:
--
--   Apperr   internal/apperr/error.go. `GoError` is Go's error value: errors.New and fmt.Errorf,
--            fmt.Errorf with %w, errors.Join, and *apperr.Error with or without a cause. A message
--            is its format and its arguments; fmt and errors.Join, which render it, are parameters
--            of `error_text` (Error.Error). `wrap` is Wrap, `is_kind` is Is.
--   Receipt  internal/receipt. `Element` has one constructor for each element type and one for a nil
--            interface value. Receipt/Validate has the Validate method of each type, Encode of
--            barcode.go and RecoveryLevel of qrcode.go; `validate` is Receipt.Validate. The barcode
--            encoders and image.DecodeConfig are a parameter, `Codecs`, about which nothing is
--            assumed. Receipt/WellFormed says independently what a well-formed element is.
--   Queue    internal/queue. `Job`, and the tests of job.go. Queue/Store has the Store interface, a
--            record of operations on contents of any type, and `Lawful`, the contract of its
--            comments, said of the job that is held under each ID. Queue/Memory is
--            store_memory.go over an association list in any order, so that what is proved does not
--            depend on Go's map order. Queue/Bolt is store_bolt.go, over two parameters: `Bbolt`, of
--            which `IsBbolt` says that a bucket finds what was put, walks its keys in order, and
--            leaves everything as it was where a transaction fails; and `Json`, of which `IsJson` says
--            that a job is decoded as it was encoded. That is more than encoding/json and the codec of
--            receipts promise of every job (a string that is not UTF-8 is changed), so the lemmas on
--            Queue/Bolt hold of a codec that keeps all jobs, and no result below rests on them. Queue/Requests is Enqueue, EnqueueIdempotent, Cancel, Get
--            and List; Queue/Process is ProcessNext, ProcessNextForPrinter, runClaimedJob (as
--            `run_claimed_job`, with its loop `run_loop`), callProcessor and Reconcile. They take
--            any store; their theorems take any lawful one.
--   Render   internal/render and internal/printer. `Canvas` and `Control` are those of
--            render/canvas/canvas.go, `Profile` that of printer/profile.go. Render/Escpos is
--            render/escpos/encode.go; Render/Paint is render/canvas/style.go, and of paint.go
--            paintGlyph, paintHLine and paintDivider; Render/Page is the rest of paint.go (Paint as
--            `paint`, its two loops as `measure_blocks` and `paint_blocks`) and encode_png.go, and has
--            the theorems on Build and Paint together. Render/Escpos/Stream is a printer's reading of
--            a stream, written from the commands and not from the encoder.
--   Document internal/render/layout/document.go and font.go. `Font` is the interface, `IsFont` what the
--            layout and the painter rely on: a space has a width, whatever stands beside it, and a glyph has
--            the bytes of its rows.
--   Layout   internal/render/layout. Layout/Words is wrapText, Layout/Padding the loops that pad with
--            spaces, Layout/Columns and Layout/Lines tables, columns and lists, Layout/Bitmaps image.go,
--            asset.go, qrcode.go and barcode.go, Layout/Build is Build. The image decoders and the
--            encoders are `Codecs`, of which `IsCodecs` says that both readings of an image agree on
--            its size.
--   Config   internal/config: Validate, the profile of a printer entry, and Load. YAML, the width in
--            mm (floating point) and the file system are parameters.
--   Assets   internal/assets. `Store` is the interface and `Keeps` its contract, said of the bytes under
--            each name. Assets/Memory is memory_store.go; Assets/Files is filesystem_store.go over a
--            parameter `Fs` for os, of which `IsFs` says that it reads, writes, removes and lists the
--            plain files of the root, with errors that are not the program's own, and fails with
--            fs.ErrNotExist exactly for a name under which it finds nothing.
--   App      internal/app: Print, Process, Preview, JobStatus and QueueSummary. App/Pipeline has the
--            theorem on a whole job, from its receipt to what the printer reads. App/Printers is ListPrinters
--            and PrinterNames, with the answers of Printer.Status as a parameter.
--   Auth     internal/auth/middleware.go: Bearer and Basic. strings.EqualFold and r.BasicAuth are parameters.
--
-- What the program takes from around it is passed in. Queue/World has the processor (which may
-- return or panic), the clock, the wait between attempts, the context and the random bytes, as
-- functions on a world that they advance. Theorems hold of every world.
--
-- Conventions:
--
--   - A Go string is a list of bytes, `Text`. An int of a document is a `ℤ`. The weights of
--     columns, which have no upper bound, are added, multiplied and divided as 64-bit integers that
--     wrap; so are the margins of a printer. An asset whose height times the width asked for exceeds an int is
--     outside the model, where its size is `none`. Other dots, rows and heights are counted without
--     bound: a document of 2^63 rows is not considered.
--   - A time is a number of nanoseconds. `now.Sub(created) > ttl` is a subtraction that stops at 0:
--     a negative duration exceeds no ttl. A backoff is a 64-bit pattern and doubles modulo 2^64.
--   - A method of a store holds its lock throughout, so it is one step. A method that reads the
--     clock or draws an ID gets both as arguments, and the caller's world has advanced by them
--     whether or not they were used.
--   - The processor is given the job and does not change it, as internal/app's does.
--   - A method returns an error as a value: `Result`, or an Option where it returns nothing else.
--   - Receipts are compared as reflect.DeepEqual does: a nil list of elements and an empty one
--     differ, in a receipt and in a column.
--
--   - Widths, heights and rows are numbers that are not negative. A width of 0 is none to keep to; a
--     profile with a negative one is taken as such a profile, and Config.Validate admits neither. The
--     height of a Spacer is not negative either, once it is validated.
--   - The type that %T prints is left out of a message.
--
-- Panics: Go panics where a slice exceeds its array, on an index out of range, a division by zero or a
-- negative count; there `encode`, `build`, `paint` and what they call answer `none`, as do the reads
-- and writes of single pixels out of range (`is_set`, `set_pixel`). That a validated receipt gets an
-- answer is proved under conditions: codecs, a font and a page as `IsCodecs`, `IsFont` and the theorems
-- ask for, assets that are not 0 dots wide, and columns whose weights stay within an int.
--
-- Fuel: `is_loop` takes the number of nodes of the error; `run_loop` takes one round more than the
-- budget of attempts, since each round adds one and the round that reaches the budget is the last.
-- `raster_bands` takes one round for each row of its range, since a band is at least a row tall,
-- and `paint_dashes` one for each dot of the width. `pad_loop` takes one for each dot of its limit,
-- since a space is a dot wide at least, and `decimal` one more than the number, which has no more
-- digits. All but the last are proved to be enough.
--
-- Not modelled: JSON and YAML, HTTP but for the check of credentials, the web interface, the
-- clients, network and file I/O but for the asset stores, the embedded font, logging, and the goroutines of the daemon.
pub mod Base
pub mod Apperr
pub mod Receipt
pub mod Queue
pub mod Render
pub mod Document
pub mod Layout
pub mod Config
pub mod Assets
pub mod App
pub mod Auth
