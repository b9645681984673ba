-- ===== src/Lib.antt =====
-- hubtain: simple file transfers between a server and a client on a local network.
--
-- The server (src/server/mod.rs) offers one file. Its task `serve` answers the UDP pings of clients
-- with the TCP port on which its second task `data_srv` accepts them; a client (src/client.rs)
-- broadcasts a ping, picks one of the servers that reply, reads the server's info from the TCP stream
-- and copies the stream to a file. With encryption the two ends first exchange keys by the noise
-- protocol (src/encrypted_stream), and the server asks its user whether the client may download, on the
-- console (src/server/client_approver.rs) or in a terminal interface (src/server/tui.rs).
--
-- The modules, and the code that they model:
--   Common           names and lemmas on tests and lists that the others share.
--   Stream           what an `async fn` does to a stream: a tree of reads and writes (Fut), run by polls
--                    (poll, await) on a socket with an inbox, an outbox and a limited room. Stream.Link
--                    joins the two ends of a connection.
--   Framing          src/encrypted_stream/mod.rs: recv and send.
--   EncryptedStream  src/encrypted_stream/client.rs and server.rs: the key exchange of both ends, and
--                    poll_read and poll_write of the streams.
--   Approval         src/models.rs (ClientId), src/server/client_approver.rs. Approval.Console is the mutex of
--                    the console's approver, as a step relation.
--   Names            src/models.rs (the display of a ClientId), src/mnemonic.rs.
--   Models           src/models.rs: DataSrvInfo and DiscoveryReply.
--   Files            src/filereader.rs, src/filewriter.rs, src/progresswriter.rs. Files.Copy has the reads
--                    of a copy.
--   Writers          the polls of the writers: flush and close of src/filewriter.rs, src/progresswriter.rs
--                    and src/encrypted_stream/server.rs.
--   Addresses        src/broadcast_addr_picker.rs, and udp_srv_bind_addr of src/server/mod.rs.
--   Server           src/server/mod.rs: FileSrvBuilder and FileSrv.
--   Serve            src/server/mod.rs: serve and data_srv, with src/server/ngrok.rs and src/igd/mod.rs.
--                    The setup is a function; the loops of the two tasks are a step relation over their
--                    places in the code and SHUTDOWN_FLAG, in which they take turns in any order.
--                    Serve.Data is what data_srv offers, Serve.Release the cleanup behind the loop,
--                    Serve.Tunnel the search for the URL of ngrok, Serve.Left what serve leaves behind.
--   ServerTui        src/server/tui.rs and src/tui/mod.rs: the state of the interface, what one message
--                    does to it, and the loop. ServerTui.Approver is the approver that asks through it,
--                    ServerTui.Threads its logger, its event thread and its join; ServerTui.Frame is what it
--                    draws, ServerTui.RenderThread how the thread ends that draws, and ServerTui.Setup what
--                    it does to the terminal.
--   Client           src/client.rs: the choice of a server, and what the downloaded file holds;
--                    Client.WholeFile joins the server's file, the streams and the client's file.
--                    Client.Ping is the socket of the search, Client.Progress the progress bar.
--   Session          src/client.rs and src/server/mod.rs: a connection up to the copy, at both ends.
--                    Session.Download joins it with the copy, Session.Plain without encryption.
--   Cli              src/main.rs: what the subcommand srv makes of its flags, the subcommand fetch, and main.
--                    Cli.Meets has both commands on one network, Cli.EndToEnd from file to file without
--                    encryption, Cli.Encrypted with it, Cli.Tunnel with it through ngrok, Cli.TurnedDown where the
--                    user says no; Cli.Secured is a connection with both copies. Cli.Consent and
--                    Cli.Console are what the user has agreed to, from the command line to the copy.
--   Tests            the theorems at concrete inputs, with small instances of the parameters.
--
-- The model is of the build without `cfg(test)`, on Linux. Bytes are natural numbers; the places where
-- the code cuts a number to 8, 16 or 64 bits, or subtracts in u16, are written out. No definition runs
-- on fuel: a future is a finite tree, and every loop is a recursion over its input, save those of the
-- two tasks, which are steps, as are the calls of the console's approver; a copy's input is what the
-- system gives to each of its reads, and as many reads as bytes are enough, with one more
-- for the end of a stream. Stream.Link's rounds are
-- counted; two rounds are enough for the key exchange, and three for the info and the key exchange.
--
-- Parameters: the crate snow (record Noise, with TransportLaws and Exchange for what it documents),
-- the crates bincode (Bincode, BincodeLaws) and serde_json, the approver, and what the operating system
-- answers (file contents, interfaces, binds, the gateway, the output of ngrok, what a read or a write
-- takes, events of the terminal, its modes, replies to a ping), what clap finds, the crate mnemonic, the
-- hasher and what the crate rand draws.
--
-- Not modelled: the widgets of the crate tui behind what they are given, the format of the console's log,
-- and the parsing of arguments, which are other crates' work; how the tasks of several clients interleave
-- on a server that stays alive, beyond the lock of the console's approver; and the errors of a read
-- from a socket that is not encrypted.
pub mod Common
pub mod Stream
pub mod Framing
pub mod Approval
pub mod EncryptedStream
pub mod ServerTui
pub mod Addresses
pub mod Files
pub mod Writers
pub mod Session
pub mod Server
pub mod Serve
pub mod Models
pub mod Names
pub mod Client
pub mod Cli
pub mod Tests
