-- ===== src/Lib.antt =====
-- apkg: a package manager that serves signed squashfs packages through a FUSE filesystem.
--
-- The program. A package database (apkgdb) keeps packages in a bbolt file: the bucket `p2p` maps the
-- collated key of a full name to hash, inode count and name, and `pkg`, `header`, `sig`, `meta` and
-- `path` hold what is known of a hash. A lookup of a name takes a range of inode numbers for the
-- package it finds, and the filesystem (apkgfs) asks for the inode of a number. Signatures (apkgsig)
-- guard packages and databases.
--
-- Which file models which part.
--   OsArch     apkgdb/osarch.go: OS, Arch, ArchOS, ParseOS, ParseArch, ParseArchOS, String, IsValid
--   Natsort    apkgdb/natsort.go: natsortCompare; Natsort/Natural is the order it should be
--   Collate    apkgdb/collate.go: collatedVersion
--   Bolt       what is relied on of bbolt and its cursor, parameters; Bolt/Assoc and Bolt/Sorted have
--              lists as instances
--   Db         apkgdb/db.go and apkgdb/write.go: the file, writeStart, writeEnd, Update, CurrentVersion
--   Pin        apkgdb/pin.go: pinKey, SetPin, DeletePin, GetPin, ListPins, lookupPinTx
--   Index      apkgdb/lookup.go: the cursor that finds the newest version of a name
--   Packages   apkgdb/index.go: AddPackage, RemovePackage; apkgdb/package.go: the reading of getPkgTx
--   Llrb       what is relied on of GoLLRB, a parameter; Llrb/Assoc has lists as an instance
--   Inodes     apkgdb/lookup.go: pkgIno, pkgInoUnsigned, allocInodes, GetInode; handleLookup
--   Lookup     apkgdb/lookup.go: internalLookup; apkgdb/unsigned.go: lookupUnsigned
--   Suffix     apkgdb/lookup.go, apkgdb/unsigned.go: the suffix of a system and an architecture
--   Resolve    apkgdb/lookup.go: Lookup; apkgdb/sub.go: SubGet
--   Unsigned   apkgdb/unsigned.go: cleanUnsignedName, addUnsignedFile, removeUnsignedFile
--   Fs         apkgfs/inode.go, apkgfs/cache.go: inodes, reference counts, the inode cache
--   Fs/Methods apkgfs/fs.go: the methods that go-fuse calls
--   Mode       apkgfs/inode.go: UnixToMode, ModeToUnix
--   Root       apkgdb/inode.go, apkgdb/ldso.go, apkgfs/inode-symlink.go, apkgdb/notify.go: the root, the
--              loader's cache and symlinks, followed through the server
--   Format     the numbers of the file formats, and the readers under them
--   Import     apkgdb/index.go: index, the import of a database file
--   Export     apkgdb/export.go: ExportAndUpload, up to the finished file
--   PackageFile  apkgdb/package.go: OpenPackage, validate, ReadAt
--   Convert    cmd/apkg-convert/process.go: the package file that is made of a squashfs image
--   Filename   cmd/apkg-convert/process.go: parsePackageFilename, and the names of a package
--   Fs/Server  apkgfs/server.go, apkgfs/proto.go: handleRequest and the handlers
--   Fs/Server/Loop, Fs/Server/Wire  the handshake, the loop of Serve, and what is written to the kernel
--   Update     apkgdb/update.go: download and update
--   Sig        apkgsig/varblob.go, apkgsig/verify.go, apkgsig/sign.go
--   Errors     error values, Prelude the shared helpers, Runs the theorems at concrete inputs
--
-- State is passed explicitly: an operation takes a record and returns a result with the record behind
-- it, also where it fails. Strings are lists of bytes. A uint64 has its wrap-around written out, and a
-- run-time panic is an error value.
--
-- Fuel. `natsort_loop` takes a byte of the first name in each round, so its length and one are enough.
-- `collate_loop` takes a byte in each round too. `put_rounds` and `read_rounds` have
-- the ten rounds that a uint64 takes. `load_pins` has a round for each byte of the data and one more,
-- `hash_blocks` a round for each byte of the image, and `block_size_loop` six, of which it takes five.
--
-- Not modelled: locks and goroutines (an operation is one step, and `serve_loop` runs the requests in
-- the order in which they are read), the ticker that starts an update, the download and the mounting of
-- packages, the upload of an export, the making of the loader's cache, the process around it and the
-- command-line tools, which are I/O around third-party code. A file is the list of its bytes, and an I/O
-- error of the disk is not among the results. The data of bbolt, GoLLRB, squashfs, ed25519 and the HSM
-- are parameters with the laws relied on.

pub mod Bolt
pub mod Collate
pub mod Convert
pub mod Db
pub mod Errors
pub mod Export
pub mod Filename
pub mod Format
pub mod Fs
pub mod Import
pub mod Index
pub mod Inodes
pub mod Llrb
pub mod Lookup
pub mod Mode
pub mod Natsort
pub mod OsArch
pub mod PackageFile
pub mod Packages
pub mod Pin
pub mod Prelude
pub mod Resolve
pub mod Root
pub mod Runs
pub mod Sig
pub mod Suffix
pub mod Unsigned
pub mod Update
